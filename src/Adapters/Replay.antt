-- ===== src/Adapters/Replay.antt =====
-- Calls of an adapter under a key that was used: `SyntheticAdapter.execute` of
-- app/services/company_os_synthetic_adapters.py.
use polsia_build.Common.{
  Bool-cases, String, ap, ap₂, arith, eq_iff, inl, inr, not, refl, some, sym, ◌==◌, ◌∙◌, ◌≡◌, ◌≢◌,
}
use polsia_build.Adapters.Execute.{
  SyntheticAdapter, execute, read_execution, receipt_again, slot_of, take_effect,
}
use polsia_build.Adapters.Guarded.{
  Branch, IsEffect, acting, execute-Branch, failing, refusing, replaying,
}
use polsia_build.Adapters.Later.{Steps-IsLater}
use polsia_build.Adapters.Steps.{Steps}
use polsia_build.Adapters.Tables.{lookup, lookup-assign, same_slot, same_slot_iff}
use polsia_build.Adapters.World.{Libraries, SyntheticWorld, ref}
use polsia_build.Raises.{
  Result, capability_error, err, ok, ok_injective, raise_if-eq-ok, raised, text,
}
use polsia_build.Value.{Fields, Value}

-- A key with a receipt: the same call is answered with it, and changes nothing.
execute-known :
    (lib : Libraries) (a : SyntheticAdapter) (v : Value) (d : Fields) (key s : String)
    (p : String × String) (w : SyntheticWorld)
    → read_execution lib a v key ≡ ok (d, s)
    → lookup same_slot (slot_of a key) w.receipts ≡ some p
    → execute lib a v key w ≡ (receipt_again s p, w)
unfolding execute
execute-known lib a v d key s p w read h = ground arith

-- The receipt that a call leaves.
pub record IsReceipted (lib : Libraries) (a : SyntheticAdapter) (v : Value) (key r : String)
    (w' : SyntheticWorld) : Type 0 where
  pub decision : Fields
  pub signature : String
  pub read : read_execution lib a v key ≡ ok (decision, signature)
  pub there : lookup same_slot (slot_of a key) w'.receipts ≡ some (signature, r)

pub effect-IsReceipted :
    (lib : Libraries) (a : SyntheticAdapter) (d : Fields) (key s : String) (w : SyntheticWorld)
    → lookup same_slot (slot_of a key) (take_effect lib a d key s w).receipts
      ≡ some (s, ref lib w a.kind key)
unfolding take_effect
effect-IsReceipted lib a d key s w = ground (
  arith,
  lookup-assign same_slot same_slot_iff w.receipts (slot_of a key) (slot_of a key)
      (s, ref lib w a.kind key),
  (same_slot_iff (slot_of a key) (slot_of a key)).1 refl,
)

pub receipt_again-ok : (s r : String) (p : String × String) → receipt_again s p ≡ ok r → p ≡ (s, r)
unfolding receipt_again
receipt_again-ok s r p h =
    let (same, h1) = raise_if-eq-ok (not (p.0 == s)) _ _ _ h in
    ap₂ (λ (x y : String). (x, y)) ((eq_iff p.0 s).0 (ground arith)) (ok_injective h1)

receipt_again_self : (s r : String) → receipt_again s (s, r) ≡ ok r
unfolding receipt_again
receipt_again_self s r = ground (arith, (eq_iff s s).1 refl)

receipt_other :
    (s t r : String)
    → t ≢ s
    → receipt_again s (t, r)
      ≡ err (raised capability_error (text "adapter key reused for different native decision"))
unfolding receipt_again
receipt_other s t r apart = elim (Bool-cases (t == s)) [
  | inl same ↦ absurd (apart ((eq_iff t s).0 same))
  | inr differ ↦ ground arith
]

pub execute-IsReceipted :
    (lib : Libraries) (a : SyntheticAdapter) (v : Value) (key r : String) (w w' : SyntheticWorld)
    → execute lib a v key w ≡ (ok r, w')
    → IsReceipted lib a v key r w'
execute-IsReceipted lib a v key r w w' h = by_branch (execute-Branch lib a v key w)
  where
    by_branch : Branch lib a v key w → IsReceipted lib a v key r w'
    by_branch (refusing e q) = absurd (ground (arith, sym q ∙ h))
    by_branch (failing q) = absurd (ground (arith, sym q ∙ h))
    by_branch (replaying d s previous read before q) =
        let same = sym q ∙ h in
        record {
          decision = d;
          signature = s;
          read = read;
          there =
              ap
                (λ (t : Result String × SyntheticWorld).
                  lookup same_slot (slot_of a key) t.1.receipts)
                (sym same)
              ∙ before
              ∙ ap some (
                  receipt_again-ok s r previous
                    (ap (λ (t : Result String × SyntheticWorld). t.0) same));
        }
    by_branch (acting d s x left read free fit returns q) =
        let same = sym q ∙ h in
        let gives : x ≡ ok r = ap (λ (t : Result String × SyntheticWorld). t.0) same in
        let made : ref lib w a.kind key ≡ r = elim returns [
          | inl e ↦ ok_injective (sym e ∙ gives)
          | inr e ↦ absurd (ground (arith, sym e ∙ gives))
        ] in
        record {
          decision = d;
          signature = s;
          read = read;
          there =
              ap
                (λ (t : Result String × SyntheticWorld).
                  lookup same_slot (slot_of a key) t.1.receipts)
                (sym same)
              ∙ effect-IsReceipted lib a d key s w
              ∙ ap (λ t. some (s, t)) made;
        }

-- Once a call of an adapter has returned a receipt, the same call under the same key returns the same
-- receipt and changes nothing, whatever deliveries, failures and calls of adapters come between.
pub execute-again :
    (lib : Libraries) (a : SyntheticAdapter) (v : Value) (key r : String)
    (w w' w'' : SyntheticWorld)
    → execute lib a v key w ≡ (ok r, w')
    → Steps lib w' w''
    → execute lib a v key w'' ≡ (ok r, w'')
execute-again lib a v key r w w' w'' h s =
    let i = execute-IsReceipted lib a v key r w w' h in
    execute-known lib a v i.decision key i.signature (i.signature, r) w'' i.read
      ((Steps-IsLater lib s).receipts (slot_of a key) (i.signature, r) i.there)
    ∙ ap (λ x. (x, w'')) (receipt_again_self i.signature r)

-- A receipt that was lost after its effect is what the same call returns later, whatever comes
-- between, and without another effect.
pub execute-lost_receipt :
    (lib : Libraries) (a : SyntheticAdapter) (v : Value) (key : String) (w w'' : SyntheticWorld)
    → IsEffect lib a v key w (execute lib a v key w).1
    → Steps lib (execute lib a v key w).1 w''
    → execute lib a v key w'' ≡ (ok (ref lib w a.kind key), w'')
unfolding take_effect
execute-lost_receipt lib a v key w w'' e s =
    execute-known lib a v e.decision key e.signature (e.signature, ref lib w a.kind key) w'' e.read
      ((Steps-IsLater lib s).receipts (slot_of a key) (e.signature, ref lib w a.kind key)
        (ap (lookup same_slot (slot_of a key)) e.receipts
          ∙ effect-IsReceipted lib a e.decision key e.signature w))
    ∙ ap (λ x. (x, w'')) (receipt_again_self e.signature (ref lib w a.kind key))

-- A key that has a receipt is refused for another decision, or another entity of the same kind.
pub execute-reused :
    (lib : Libraries) (a b : SyntheticAdapter) (v u : Value) (key r : String) (d : Fields)
    (s t : String) (e : Fields) (w w' w'' : SyntheticWorld)
    → execute lib a v key w ≡ (ok r, w')
    → read_execution lib a v key ≡ ok (d, s)
    → Steps lib w' w''
    → b.kind ≡ a.kind
    → read_execution lib b u key ≡ ok (e, t)
    → s ≢ t
    → execute lib b u key w'' ≡ (
      err (raised capability_error (text "adapter key reused for different native decision")),
      w'',
    )
execute-reused lib a b v u key r d s t e w w' w'' h read steps kind new apart =
    let i = execute-IsReceipted lib a v key r w w' h in
    let same : i.signature ≡ s =
      ap (λ (x : Fields × String). x.1) (ok_injective (sym i.read ∙ read)) in
    let there : lookup same_slot (slot_of b key) w''.receipts ≡ some (i.signature, r) =
      ap (λ k. lookup same_slot (record { kind = k; key = key }) w''.receipts) kind
      ∙ (Steps-IsLater lib steps).receipts (slot_of a key) (i.signature, r) i.there in
    execute-known lib b u e key t (i.signature, r) w'' new there
    ∙ ap (λ x. (x, w'')) (receipt_other t i.signature r (λ q. apart (sym same ∙ q)))
