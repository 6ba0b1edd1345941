-- ===== src/Adapters/Guarded.antt =====
-- When an adapter has an effect: `SyntheticAdapter.execute` of
-- app/services/company_os_synthetic_adapters.py.
use polsia_build.Common.{
  Bool-cases, List, Option-cases, String, ap, arith, inl, inr, is_empty, none, not, refl, some,
  subst, sym, true, ◌∙◌, ◌≡◌, ◌⊎◌,
}
use polsia_build.Adapters.Execute.{
  SyntheticAdapter, check_eligible, execute, execute_new, lost_receipt, outcome_of,
  provider_failure, read_execution, receipt_again, signature_of, slot_of, take_effect,
}
use polsia_build.Adapters.Tables.{Slot, assign, holds, lookup, remove, same_name, same_slot}
use polsia_build.Adapters.World.{Libraries, SyntheticWorld, guard, ref}
use polsia_build.Raises.{
  >>=-eq-ok, Exception, Result, err, ok, ok_injective, ok_or_err, or_raise, or_raise-some,
  raise_if-eq-ok,
}
use polsia_build.Value.{Fields, Value, as_dict}

-- An effect, and what it rests on.
pub record IsEffect (lib : Libraries) (a : SyntheticAdapter) (v : Value) (key : String)
    (w w' : SyntheticWorld) : Type 0 where
  pub decision : Fields
  pub signature : String
  pub sandboxed : lib.sandbox_mode ≡ true
  pub is_dict : as_dict v ≡ some decision
  pub signed : signature_of lib a decision ≡ ok signature
  pub read : read_execution lib a v key ≡ ok (decision, signature)
  pub unused : lookup same_slot (slot_of a key) w.receipts ≡ none
  pub eligible : check_eligible a w ≡ ok tt
  pub outcomes :
      w'.outcomes ≡ assign same_name w.outcomes (ref lib w a.kind key) (outcome_of a decision w)
  pub receipts :
      w'.receipts ≡ assign same_slot w.receipts (slot_of a key) (signature, ref lib w a.kind key)

-- The tables that no call of an adapter changes.
pub record IsKept (w w' : SyntheticWorld) : Type 0 where
  pub run_id : w'.run_id ≡ w.run_id
  pub contacts : w'.contacts ≡ w.contacts
  pub customers : w'.customers ≡ w.customers
  pub leads : w'.leads ≡ w.leads
  pub payments : w'.payments ≡ w.payments
  pub replies : w'.replies ≡ w.replies
  pub inbound : w'.inbound ≡ w.inbound

abbrev pub HasNoEffect : SyntheticWorld → SyntheticWorld → Type 0
HasNoEffect w w' = (w'.outcomes ≡ w.outcomes) × (w'.receipts ≡ w.receipts)

pub unchanged : (w : SyntheticWorld) → IsKept w w
unchanged w = record {
  run_id = refl;
  contacts = refl;
  customers = refl;
  leads = refl;
  payments = refl;
  replies = refl;
  inbound = refl;
}

pub read_execution-valid :
    (lib : Libraries) (a : SyntheticAdapter) (v : Value) (key : String) (d : Fields) (s : String)
    → read_execution lib a v key ≡ ok (d, s)
    → (lib.sandbox_mode ≡ true) × (as_dict v ≡ some d) × (signature_of lib a d ≡ ok s)
unfolding read_execution guard
read_execution-valid lib a v key d s h =
    let (on, h1) = raise_if-eq-ok (not lib.sandbox_mode) _ _ _ h in
    let (_, h2) = raise_if-eq-ok (is_empty key) _ _ _ h1 in
    let (e, dict, h3) = >>=-eq-ok (or_raise (as_dict v) _ _) _ h2 in
    let (t, signed, h4) = >>=-eq-ok (signature_of lib a e) _ h3 in
    let made = ok_injective h4 in
    let same : e ≡ d = ap (λ (p : Fields × String). p.0) made in
    (
      ground arith,
      or_raise-some (as_dict v) _ _ dict ∙ ap some same,
      subst (λ x. signature_of lib a x ≡ ok t) same signed
          ∙ ap ok (ap (λ (p : Fields × String). p.1) made),
    )

-- The ways that a call of an adapter goes.
pub data Branch (lib : Libraries) (a : SyntheticAdapter) (v : Value) (key : String)
    (w : SyntheticWorld) : Type 0 where
  refusing : (e : Exception) → execute lib a v key w ≡ (err e, w) → Branch lib a v key w
  replaying :
      (d : Fields) (s : String) (previous : String × String)
      → read_execution lib a v key ≡ ok (d, s)
      → lookup same_slot (slot_of a key) w.receipts ≡ some previous
      → execute lib a v key w ≡ (receipt_again s previous, w)
      → Branch lib a v key w
  failing :
      execute lib a v key w
        ≡ (err provider_failure, record w { fail_once = remove w.fail_once (slot_of a key) })
      → Branch lib a v key w
  acting :
      (d : Fields) (s : String) (x : Result String) (left : List Slot)
      → read_execution lib a v key ≡ ok (d, s)
      → lookup same_slot (slot_of a key) w.receipts ≡ none
      → check_eligible a w ≡ ok tt
      → (x ≡ ok (ref lib w a.kind key)) ⊎ (x ≡ err lost_receipt)
      → execute lib a v key w
        ≡ (x, record (take_effect lib a d key s w) { after_effect_once = left })
      → Branch lib a v key w

acting-Branch :
    (lib : Libraries) (a : SyntheticAdapter) (v : Value) (d : Fields) (key s : String)
    (w : SyntheticWorld)
    → read_execution lib a v key ≡ ok (d, s)
    → lookup same_slot (slot_of a key) w.receipts ≡ none
    → execute lib a v key w ≡ execute_new lib a d key s w
    → Branch lib a v key w
unfolding execute_new take_effect
acting-Branch lib a v d key s w read free same = elim (ok_or_err (check_eligible a w)) [
  | inr (e, f) ↦ refusing e (same ∙ ground arith)
  | inl (_, f) ↦ elim (Bool-cases (holds w.after_effect_once (slot_of a key))) [
    | inl t ↦
        acting d s (err lost_receipt) (remove w.after_effect_once (slot_of a key)) read free f
          (inr refl) (same ∙ ground arith)
    | inr t ↦
        acting d s (ok (ref lib w a.kind key)) w.after_effect_once read free f (inl refl)
          (same ∙ ground arith)
  ]
]

pub execute-Branch :
    (lib : Libraries) (a : SyntheticAdapter) (v : Value) (key : String) (w : SyntheticWorld)
    → Branch lib a v key w
unfolding execute
execute-Branch lib a v key w = elim (ok_or_err (read_execution lib a v key)) [
  | inr (e, f) ↦ refusing e (ground arith)
  | inl ((d, s), f) ↦ elim (Option-cases (lookup same_slot (slot_of a key) w.receipts)) [
    | inr (previous, g) ↦ replaying d s previous f g (ground arith)
    | inl g ↦ elim (Bool-cases (holds w.fail_once (slot_of a key))) [
      | inl t ↦ failing (ground arith)
      | inr t ↦ acting-Branch lib a v d key s w f g (ground arith)
    ]
  ]
]

-- A call of an adapter changes no table of facts, and it has no effect but on the first
-- use of its key, in the sandbox mode, on a world that the adapter's kind finds eligible: then it
-- writes one outcome and one receipt, whether or not the receipt reaches the caller.
pub execute-effects :
    (lib : Libraries) (a : SyntheticAdapter) (v : Value) (key : String) (w : SyntheticWorld)
    → IsKept w (execute lib a v key w).1
      × (HasNoEffect w (execute lib a v key w).1 ⊎ IsEffect lib a v key w (execute lib a v key w).1)
unfolding take_effect
execute-effects lib a v key w = by_branch (execute-Branch lib a v key w)
  where
    Shown : Result String × SyntheticWorld → Type 0
    Shown t = IsKept w t.1 × (HasNoEffect w t.1 ⊎ IsEffect lib a v key w t.1)

    by_branch : Branch lib a v key w → Shown (execute lib a v key w)
    by_branch (refusing e q) = subst Shown (sym q) (unchanged w, inl (refl, refl))
    by_branch (replaying d s previous read before q) =
        subst Shown (sym q) (unchanged w, inl (refl, refl))
    by_branch (failing q) = subst Shown (sym q) (
      record {
        run_id = refl;
        contacts = refl;
        customers = refl;
        leads = refl;
        payments = refl;
        replies = refl;
        inbound = refl;
      },
      inl (refl, refl),
    )
    by_branch (acting d s x left read free fit returns q) =
        let (on, dict, signed) = read_execution-valid lib a v key d s read in
        subst Shown (sym q) (
          record {
            run_id = refl;
            contacts = refl;
            customers = refl;
            leads = refl;
            payments = refl;
            replies = refl;
            inbound = refl;
          },
          inr (record {
            decision = d;
            signature = s;
            sandboxed = on;
            is_dict = dict;
            signed = signed;
            read = read;
            unused = free;
            eligible = fit;
            outcomes = refl;
            receipts = refl;
          }),
        )
