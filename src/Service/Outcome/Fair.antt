-- ===== src/Service/Outcome/Fair.antt =====
-- What the exit code of a manual request means.
use sonarr_remediator.Base.{
  ℤ, pos, int_eq, ◌≡◌, ◌↔◌, refl, sym, ◌∙◌, ap, inl, inr, arith, Bool, true, false, ◌&&◌, ◌||◌, not,
  any, Option, List, [], ◌∷◌, is_none, if◌then◌else◌, Bool-cases, Option-cases, String, string_eq,
}
use sonarr_remediator.Control.{Request}
use sonarr_remediator.Control.Report.{Report, Item, Effect}
use sonarr_remediator.Service.Outcome.{
  Verdict, is_uncertain, judge_effects, would_act, judge_items, judge_report, save_receipt,
  conclude_report,
}

-- Something was acknowledged, or a preview would act.
abbrev pub acts : Bool → Item → Bool
acts execute item = would_act execute item || any (λ (e : Effect). e.acknowledged) item.effects

abbrev pub has_uncertain : Item → Bool
has_uncertain item = any is_uncertain item.effects

or_assoc : (x y z : Bool) → ((x || y) || z) ≡ (x || (y || z))
or_assoc true y z = refl
or_assoc false y z = refl

or_false : (x : Bool) → x ≡ (x || false)
or_false true = refl
or_false false = refl

if_or :
    (a b : Bool) (x : ℤ)
    → (if b then pos 0 else if a then pos 0 else x) ≡ (if a || b then pos 0 else x)
if_or true true x = refl
if_or true false x = refl
if_or false true x = refl
if_or false false x = refl

judge_effects-any :
    (v : Verdict) (es : List Effect)
    → ((judge_effects v es).uncertain ≡ (v.uncertain || any is_uncertain es))
      × ((judge_effects v es).code
          ≡ (if any (λ (e : Effect). e.acknowledged) es then pos 0 else v.code))
unfolding judge_effects
judge_effects-any v [] = (or_false v.uncertain, refl)
judge_effects-any v (e ∷ rest) =
    let u : Verdict = record {
      code = if e.acknowledged then pos 0 else v.code;
      uncertain = v.uncertain || is_uncertain e;
    } in
    let (a, b) = judge_effects-any u rest in
    (
      a ∙ or_assoc v.uncertain (is_uncertain e) (any is_uncertain rest),
      b ∙ if_or e.acknowledged (any (λ (x : Effect). x.acknowledged) rest) v.code,
    )

judge_items-any :
    (execute : Bool) (v : Verdict) (items : List Item)
    → ((judge_items execute v items).uncertain ≡ (v.uncertain || any has_uncertain items))
      × ((judge_items execute v items).code ≡ (if any (acts execute) items then pos 0 else v.code))
unfolding judge_items
judge_items-any execute v [] = (or_false v.uncertain, refl)
judge_items-any execute v (item ∷ rest) =
    let w : Verdict = record v { code = if would_act execute item then pos 0 else v.code } in
    let u = judge_effects w item.effects in
    let (a, b) = judge_items-any execute u rest in
    let (x, y) = judge_effects-any w item.effects in
    let acked = any (λ (e : Effect). e.acknowledged) item.effects in
    let acted = y ∙ if_or (would_act execute item) acked v.code in
    (
      a
          ∙ ap (λ t. t || any has_uncertain rest) x
          ∙ or_assoc v.uncertain (has_uncertain item) (any has_uncertain rest),
      b
          ∙ ap (λ (n : ℤ). if any (acts execute) rest then pos 0 else n) acted
          ∙ if_or (acts execute item) (any (acts execute) rest) v.code,
    )

-- The exit code, from the tests alone.
abbrev exit_of : Bool → Bool → Bool → Bool → Bool → Bool → ℤ
exit_of fine cancelled unsure acted execute effects =
    if not fine || cancelled
    then (if execute && effects then pos 3 else pos 1)
    else if unsure
    then pos 3
    else if acted
    then pos 0
    else pos 2

judge_report-exit_of :
    (r : Request) (error : Option String) (cancelled effects : Bool) (report : Report)
    → report.exit_code ≡ pos 2
    → (judge_report r error cancelled effects report).exit_code
      ≡ exit_of
          (is_none error)
          cancelled
          (any has_uncertain report.items)
          (any (acts r.execute) report.items)
          r.execute
          effects
unfolding judge_report
judge_report-exit_of r error cancelled effects report two =
    let (a, b) =
      judge_items-any r.execute (record { code = report.exit_code; uncertain = false })
        report.items in
    elim (Bool-cases (not (is_none error) || cancelled)) [
      | inl y ↦ rw (y, judge_report) refl
      | inr n ↦
          rw (n, a, b, judge_report)
            (ap
              (λ (m : ℤ).
                if any has_uncertain report.items
                then pos 3
                else if any (acts r.execute) report.items
                then pos 0
                else m)
              two)
    ]

-- After the final save, which fails if `unsaved`.
abbrev final_of : Bool → Bool → ℤ → ℤ
final_of unsaved execute code = if execute && unsaved then pos 3 else code

save_receipt-final_of :
    (r : Request) (saved : Option String) (report : Report)
    → (save_receipt r saved report).exit_code
      ≡ final_of (not (is_none saved)) r.execute report.exit_code
unfolding save_receipt
save_receipt-final_of r saved report = elim (Bool-cases r.execute) [
  | inr n ↦ rw (n, save_receipt) refl
  | inl y ↦ elim (Option-cases saved) [
    | inl e ↦ rw (y, e, save_receipt) refl
    | inr (x, e) ↦ rw (y, e, save_receipt) refl
  ]
]

final_of-fair :
    (fine cancelled unsure acted execute effects unsaved : Bool)
    → let code = final_of unsaved execute (exit_of fine cancelled unsure acted execute effects) in
      (code ≡ pos 0 ↔ (
        (fine ≡ true)
        × (cancelled ≡ false)
        × (unsure ≡ false)
        × (acted ≡ true)
        × ((execute && unsaved) ≡ false)))
      × (fine ≡ false → execute ≡ true → effects ≡ true → code ≡ pos 3)
      × (execute ≡ true → unsaved ≡ true → code ≡ pos 3)
final_of-fair fine cancelled unsure acted execute effects unsaved = ground arith

-- The exit code is 0 exactly if the cycle had no error, was not cancelled, left no effect uncertain or a mere
-- intent, something was acknowledged or a preview would act, and no final save of an execution failed. An
-- execution whose cycle failed after it made attempts has exit code 3, and so has one whose final save failed.
pub conclude_report-IsFair :
    (r : Request) (error : Option String) (cancelled effects : Bool) (saved : Option String)
    (report : Report)
    → report.exit_code ≡ pos 2
    → let done = conclude_report r error cancelled effects saved report in
      (done.exit_code ≡ pos 0 ↔ (
        (is_none error ≡ true)
        × (cancelled ≡ false)
        × (any has_uncertain report.items ≡ false)
        × (any (acts r.execute) report.items ≡ true)
        × ((r.execute && not (is_none saved)) ≡ false)))
      × (is_none error ≡ false → r.execute ≡ true → effects ≡ true → done.exit_code ≡ pos 3)
      × (r.execute ≡ true → not (is_none saved) ≡ true → done.exit_code ≡ pos 3)
unfolding conclude_report
conclude_report-IsFair r error cancelled effects saved report two =
    let judged = judge_report r error cancelled effects report in
    let e =
      save_receipt-final_of r saved judged
      ∙ ap (final_of (not (is_none saved)) r.execute)
          (judge_report-exit_of r error cancelled effects report two) in
    let (code, failed, unsaved) =
      final_of-fair (is_none error) cancelled (any has_uncertain report.items)
        (any (acts r.execute) report.items) r.execute effects (not (is_none saved)) in
    (
      (λ h. code.0 (sym e ∙ h), λ h. e ∙ code.1 h),
      λ some_error live made. e ∙ failed some_error live made,
      λ live lost. e ∙ unsaved live lost,
    )
