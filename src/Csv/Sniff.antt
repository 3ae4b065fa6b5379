-- ===== src/Csv/Sniff.antt =====
-- `sniffDelimiter` picks a delimiter of the best score.
use step_by_step.Common.{
  ℕ, String, ◌≡◌, refl, ap, sym, true, false, ◌||◌, ◌∙◌, inl, inr, Bool-cases, List, [], ◌∷◌,
  Option, none, some, arith, eqb, any, All,
}
use step_by_step.Csv.Table.{is_better, score_of, sniff_from, sniff_delimiter, delimiters}

not_better_trans :
    (a b c : Option ℕ) → is_better a b ≡ false → is_better b c ≡ false → is_better a c ≡ false
not_better_trans none b c h k = refl
not_better_trans (some a) none c h k = cc
not_better_trans (some a) (some b) none h k = cc
not_better_trans (some a) (some b) (some c) h k = ground arith

better_asym : (a b : Option ℕ) → is_better a b ≡ true → is_better b a ≡ false
better_asym none b h = cc
better_asym (some a) none h = refl
better_asym (some a) (some b) h = ground arith

not_better_self : (a : Option ℕ) → is_better a a ≡ false
not_better_self none = refl
not_better_self (some a) = ground arith

no_score : (o : Option ℕ) → is_better o none ≡ false → none ≡ o
no_score none h = refl
no_score (some n) h = cc

module _ (text : String) where
  abbrev Loses : ℕ → ℕ → Type 0
  Loses winner sep = is_better (score_of text sep) (score_of text winner) ≡ false

  sniff_from-empty : (best : ℕ) (score : Option ℕ) → sniff_from text [] best score ≡ best
  unfolding sniff_from
  sniff_from-empty best score = refl

  sniff_from-better :
      (sep : ℕ) (seps : List ℕ) (best : ℕ) (score : Option ℕ)
      → is_better (score_of text sep) score ≡ true
      → sniff_from text (sep ∷ seps) best score ≡ sniff_from text seps sep (score_of text sep)
  unfolding sniff_from
  sniff_from-better sep seps best score better = rw better refl

  sniff_from-worse :
      (sep : ℕ) (seps : List ℕ) (best : ℕ) (score : Option ℕ)
      → is_better (score_of text sep) score ≡ false
      → sniff_from text (sep ∷ seps) best score ≡ sniff_from text seps best score
  unfolding sniff_from
  sniff_from-worse sep seps best score worse = rw worse refl

  sniff_from-best :
      (seps : List ℕ) (best winner : ℕ)
      → sniff_from text seps best (score_of text best) ≡ winner
      → Loses winner best × All (Loses winner) seps
  sniff_from-best [] best winner e =
      rw (sym e, sniff_from-empty best (score_of text best))
        (not_better_self (score_of text best), tt)
  sniff_from-best (sep ∷ seps) best winner e =
      elim (Bool-cases (is_better (score_of text sep) (score_of text best))) [
        | inl better ↦
            let ih =
              sniff_from-best seps sep winner
                (sym (sniff_from-better sep seps best _ better) ∙ e) in
            let down = better_asym (score_of text sep) (score_of text best) better in
            (not_better_trans (score_of text best) (score_of text sep) _ down ih.0, ih)
        | inr worse ↦
            let ih =
              sniff_from-best seps best winner (sym (sniff_from-worse sep seps best _ worse) ∙ e) in
            (ih.0, (not_better_trans (score_of text sep) (score_of text best) _ worse ih.0, ih.1))
      ]

  abbrev IsAmong : ℕ → ℕ → List ℕ → Type 0
  IsAmong n best seps = (eqb best n || any (λ sep. eqb sep n) seps) ≡ true

  sniff_from-mem :
      (seps : List ℕ) (best winner : ℕ) (score : Option ℕ)
      → sniff_from text seps best score ≡ winner
      → IsAmong winner best seps
  sniff_from-mem [] best winner score e = rw (sym e, sniff_from-empty best score) (ground arith)
  sniff_from-mem (sep ∷ seps) best winner score e =
      elim (Bool-cases (is_better (score_of text sep) score)) [
        | inl better ↦
            let later = sym (sniff_from-better sep seps best score better) ∙ e in
            ground (arith, sniff_from-mem seps sep winner (score_of text sep) later)
        | inr worse ↦
            let later = sym (sniff_from-worse sep seps best score worse) ∙ e in
            ground (arith, sniff_from-mem seps best winner score later)
      ]

  first_score :
      (seps : List ℕ) (best : ℕ)
      → sniff_from text (best ∷ seps) best none ≡ sniff_from text seps best (score_of text best)
  first_score seps best = elim (Bool-cases (is_better (score_of text best) none)) [
    | inl better ↦ sniff_from-better best seps best none better
    | inr worse ↦
        sniff_from-worse best seps best none worse
        ∙ ap (sniff_from text seps best) (no_score (score_of text best) worse)
  ]

-- The delimiter that is picked is one of the four, and none of the four has a better score.
pub sniff_delimiter-best :
    (text : String)
    → (any (λ sep. eqb sep (sniff_delimiter text)) delimiters ≡ true)
      × All
          (λ sep. is_better (score_of text sep) (score_of text (sniff_delimiter text)) ≡ false)
          delimiters
unfolding sniff_delimiter
sniff_delimiter-best text =
    let seps : List ℕ = 9 ∷ b';' ∷ b'|' ∷ [] in
    let found = sym (first_score text seps b',') in
    (
      sniff_from-mem text seps b',' (sniff_delimiter text) (score_of text b',') found,
      sniff_from-best text seps b',' (sniff_delimiter text) found,
    )
