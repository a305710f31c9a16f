-- ===== src/Utils/Migration/Failing.antt =====
-- Exec when a step fails.
use go_mini_opera.Prelude.{
  ◌≡◌, ◌≢◌, refl, sym, ap, ◌∙◌, Bool, false, Option, none, some, List, [], ◌∷◌, ◌++◌, All, inl, inr,
  if◌then◌else◌,
}
use go_mini_opera.Utils.Migration.{
  Str, exec_failed, Step, Migration, Store, and_then, exec_migrations,
}
use go_mini_opera.Utils.Migration.Resume.{
  apply_steps, apply_step-cases, oldest_first, exec_migrations-extend, IsAt, extend,
}

module _ {S : Type 0} (digest : Str → Str) where
  -- The first step of a run that fails.
  apply_steps-failed :
      (ss : List (Step S)) (curr after : Store S)
      → apply_steps digest ss curr ≡ (some exec_failed, after)
      → (before : List (Step S)) × (failing : Step S) × (rest : List (Step S)) × (mid : Store S)
        × (ss ≡ before ++ (failing ∷ rest))
        × (apply_steps digest before curr ≡ (none, mid))
        × (failing.exec mid.content ≡ (false, after.content))
        × (after.id ≡ mid.id)
  unfolding apply_steps and_then
  apply_steps-failed [] curr after h = absurd cc
  apply_steps-failed (s ∷ ss) curr after h = elim (apply_step-cases digest s curr) [
    | inl (c, ran, step) ↦
        let (before, failing, rest, mid, split, done, fails, kept) =
          apply_steps-failed ss (record { id = digest s.name; content = c }) after (rw step at h) in
        (s ∷ before, failing, rest, mid, ap (◌∷◌ s) split, rw step done, fails, kept)
    | inr (c, failed, step) ↦
        let now = rw step at h in
        let same = ap (λ r. r.1) now in
        (
          [],
          s,
          ss,
          curr,
          refl,
          refl,
          failed ∙ ap (λ st. (false, st.content)) same,
          sym (ap (λ st. st.id) same),
        )
  ]

  -- The content after each step has run without an error, and the id of the last of the steps.
  abbrev executed : List (Step S) → S → Option S
  executed [] c = some c
  executed (s ∷ ss) c = let rest = executed ss (s.exec c).1 in if (s.exec c).0 then rest else none

  abbrev last_id : List (Step S) → Str → Str
  last_id [] id = id
  last_id (s ∷ ss) id = last_id ss (digest s.name)

  apply_steps-done :
      (ss : List (Step S)) (curr after : Store S)
      → apply_steps digest ss curr ≡ (none, after)
      → (executed ss curr.content ≡ some after.content) × (after.id ≡ last_id ss curr.id)
  unfolding apply_steps and_then
  apply_steps-done [] curr after h = (ap (λ r. some r.1.content) h, sym (ap (λ r. r.1.id) h))
  apply_steps-done (s ∷ ss) curr after h = elim (apply_step-cases digest s curr) [
    | inl (c, ran, step) ↦
        let (content, id) =
          apply_steps-done ss (record { id = digest s.name; content = c }) after (rw step at h) in
        (
          ap (λ (r : Bool × S). let rest = executed ss r.1 in if r.0 then rest else none) ran
              ∙ content,
          id,
        )
    | inr (c, failed, step) ↦ absurd cc
  ]

  -- How a run of a chain whose missing steps are the list stops at a step.
  abbrev pub StopsAt : List (Step S) → Store S → Store S → Type 0
  StopsAt missing curr after =
      (before : List (Step S)) × (failing : Step S) × (rest : List (Step S)) × (c : S) × (missing
        ≡ before ++ (failing ∷ rest))
      × (executed before curr.content ≡ some c)
      × (failing.exec c ≡ (false, after.content))
      × (after.id ≡ last_id before curr.id)

  -- When a store stands at the last step of a chain, its id is the id of none of the steps after
  -- it, and Exec of the chain fails in a step, then the missing steps are, in their order, some
  -- whose exec ran without an error one after the other from the store's content, the failing one,
  -- and a rest: the content is what the failing one left of theirs, and the id is that of the last
  -- one before it, or the store's own if there is none.
  pub exec_migrations-failed :
      (m : Migration S) (newest : List (Step S)) (curr after : Store S)
      → IsAt digest m curr
      → All (λ s. curr.id ≢ digest s.name) newest
      → exec_migrations digest (extend digest m newest) curr ≡ (some exec_failed, after)
      → StopsAt (oldest_first digest newest) curr after
  exec_migrations-failed m newest curr after at later failed =
      let (before, failing, rest, mid, split, done, fails, kept) =
        apply_steps-failed (oldest_first digest newest) curr after
          (sym (exec_migrations-extend digest m newest curr at later) ∙ failed) in
      let (content, id) = apply_steps-done before curr mid done in
      (before, failing, rest, mid.content, split, content, fails, kept ∙ id)
