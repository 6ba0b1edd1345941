-- ===== src/Adapters/Inbound.antt =====
-- Deliveries: `SyntheticWorld.receive` of app/services/company_os_synthetic_adapters.py.
use polsia_build.Common.{
  Option-cases, String, [], ap, arith, eq_iff, inl, inr, not, refl, some, sym, ◌==◌, ◌∙◌, ◌∷◌, ◌≡◌,
}
use polsia_build.Adapters.Later.{Steps-IsLater}
use polsia_build.Adapters.Steps.{Steps, admit-kept}
use polsia_build.Adapters.Tables.{
  Slot, assign, lookup, lookup-just_assigned, same_slot, same_slot_iff,
}
use polsia_build.Adapters.World.{
  Libraries, SyntheticWorld, admit, entity_of, fingerprint, input_ref, read_delivery, receive,
  receive_again, receive_new, ref,
}
use polsia_build.Raises.{>>=-eq-ok, Result, ok, ok_injective, ok_or_err, raise_if-eq-ok}
use polsia_build.Value.{Fields, Value, obj}
use polsia_build.Value.Text.{concat}

-- What a delivery that was taken in leaves.
pub record IsTaken (lib : Libraries) (channel id r : String) (facts : Value) (w w' : SyntheticWorld)
    : Type 0 where
  pub delivered : Fields
  pub seen : String
  pub read : read_delivery lib channel id facts ≡ ok delivered
  pub mark : fingerprint lib (obj delivered) ≡ ok seen
  pub gives : r ≡ input_ref lib w channel id
  pub there : lookup same_slot (record { kind = channel; key = id }) w'.inbound ≡ some seen
  pub run_id : w'.run_id ≡ w.run_id

abbrev pub delivery_slot : String → String → Slot
delivery_slot channel id = record { kind = channel; key = id }

pub ref_of_run :
    (lib : Libraries) (w w' : SyntheticWorld) (category key : String)
    → w'.run_id ≡ w.run_id
    → ref lib w' category key ≡ ref lib w category key
unfolding ref
ref_of_run lib w w' category key h = rw h refl

receive_again-ok :
    (lib : Libraries) (w : SyntheticWorld) (channel id known r : String) (d : Fields)
    → receive_again lib w channel id d known ≡ ok r
    → (fingerprint lib (obj d) ≡ ok known) × (r ≡ input_ref lib w channel id)
unfolding receive_again
receive_again-ok lib w channel id known r d h =
    let (seen, mark, h1) = >>=-eq-ok (fingerprint lib (obj d)) _ h in
    let (same, h2) = raise_if-eq-ok (not (known == seen)) _ _ _ h1 in
    (mark ∙ ap ok (sym ((eq_iff known seen).0 (ground arith))), sym (ok_injective h2))

receive_again-same :
    (lib : Libraries) (w : SyntheticWorld) (channel id known : String) (d : Fields)
    → fingerprint lib (obj d) ≡ ok known
    → receive_again lib w channel id d known ≡ ok (input_ref lib w channel id)
unfolding receive_again
receive_again-same lib w channel id known d h = ground (arith, h, (eq_iff known known).1 refl)

receive_new-IsTaken :
    (lib : Libraries) (channel id r : String) (facts : Value) (d : Fields) (w w' : SyntheticWorld)
    → read_delivery lib channel id facts ≡ ok d
    → receive_new lib w channel id d ≡ (ok r, w')
    → IsTaken lib channel id r facts w w'
unfolding receive_new
receive_new-IsTaken lib channel id r facts d w w' read h =
    elim (ok_or_err (entity_of w channel d)) [
      | inr (e, f) ↦ absurd (ground arith)
      | inl (entity, f) ↦ elim (ok_or_err (fingerprint lib (obj d))) [
        | inr (e, g) ↦ absurd (ground arith)
        | inl (seen, g) ↦
            let same : (
              ok (input_ref lib w channel id),
              record (admit channel id entity d w) {
                inbound =
                    assign same_slot (admit channel id entity d w).inbound
                      (record { kind = channel; key = id }) seen;
              },
            )
                ≡ (ok r, w') =
              ground arith in
            let (run, _, _, _) = admit-kept channel id entity d w in
            record {
              delivered = d;
              seen = seen;
              read = read;
              mark = g;
              gives = sym (ok_injective (ap (λ (t : Result String × SyntheticWorld). t.0) same));
              there =
                  ap
                    (λ (t : Result String × SyntheticWorld).
                      lookup same_slot (delivery_slot channel id) t.1.inbound)
                    (sym same)
                  ∙ lookup-just_assigned same_slot same_slot_iff
                      (admit channel id entity d w).inbound (delivery_slot channel id) seen;
              run_id = sym (ap (λ (t : Result String × SyntheticWorld). t.1.run_id) same) ∙ run;
            }
      ]
    ]

receive-IsTaken :
    (lib : Libraries) (channel id r : String) (facts : Value) (w w' : SyntheticWorld)
    → receive lib channel id facts w ≡ (ok r, w')
    → IsTaken lib channel id r facts w w'
unfolding receive
receive-IsTaken lib channel id r facts w w' h =
    elim (ok_or_err (read_delivery lib channel id facts)) [
      | inr (e, f) ↦ absurd (ground arith)
      | inl (d, f) ↦ elim (Option-cases (lookup same_slot (delivery_slot channel id) w.inbound)) [
        | inl g ↦ receive_new-IsTaken lib channel id r facts d w w' f (ground arith)
        | inr (known, g) ↦
            let same : (receive_again lib w channel id d known, w) ≡ (ok r, w') = ground arith in
            let (mark, gives) =
              receive_again-ok lib w channel id known r d
                (ap (λ (t : Result String × SyntheticWorld). t.0) same) in
            record {
              delivered = d;
              seen = known;
              read = f;
              mark = mark;
              gives = gives;
              there =
                  ap
                    (λ (t : Result String × SyntheticWorld).
                      lookup same_slot (delivery_slot channel id) t.1.inbound)
                    (sym same)
                  ∙ g;
              run_id = ap (λ (t : Result String × SyntheticWorld). t.1.run_id) (sym same);
            }
      ]
    ]

receive_known :
    (lib : Libraries) (channel id known : String) (facts : Value) (d : Fields) (w : SyntheticWorld)
    → read_delivery lib channel id facts ≡ ok d
    → lookup same_slot (delivery_slot channel id) w.inbound ≡ some known
    → receive lib channel id facts w ≡ (receive_again lib w channel id d known, w)
unfolding receive
receive_known lib channel id known facts d w f g = ground arith

-- A delivery that was taken in, delivered again, gives the same reference and changes nothing,
-- whatever comes between.
pub receive_delivery-again :
    (lib : Libraries) (channel id r : String) (facts : Value) (w w' w'' : SyntheticWorld)
    → receive lib channel id facts w ≡ (ok r, w')
    → Steps lib w' w''
    → receive lib channel id facts w'' ≡ (ok r, w'')
receive_delivery-again lib channel id r facts w w' w'' h s =
    let i = receive-IsTaken lib channel id r facts w w' h in
    let l = Steps-IsLater lib s in
    receive_known lib channel id i.seen facts i.delivered w'' i.read
      (l.inbound (delivery_slot channel id) i.seen i.there)
    ∙ ap (λ x. (x, w''))
        (receive_again-same lib w'' channel id i.seen i.delivered i.mark
          ∙ ap ok (
              ref_of_run lib w w'' "input" (concat (channel ∷ ":" ∷ id ∷ [])) (l.run_id ∙ i.run_id)
              ∙ sym i.gives))
