-- ===== src/EventCheck/Examples.antt =====
-- The checks of a root event, and the batches of nine events.
use go_mini_opera.Prelude.{◌≡◌, ◌↔◌, true, none, some, [], ◌∷◌, replicate, ltb}
use go_mini_opera.Inter.Examples.{event, root_id}
use go_mini_opera.EventCheck.Checkers.{Base, EpochKeys, validate}
use go_mini_opera.EventCheck.Admission.{IsAdmissible, validate_iff}
use go_mini_opera.EventCheck.Heavy.{enqueue, Sends, enqueue_lem}

abbrev base : Base
base = record {
  basic = λ e. none;
  epoch = λ e. none;
  parents = λ e parents. none;
  self_parent = λ e. some root_id;
  is_self_parent = λ e id. true;
  verify_signature = λ key hash sig. true;
}

abbrev keys : EpochKeys
keys = record { pub_keys = λ v. some (v ∷ []); epoch = 5 }

validate_iff_example :
    (validate base 10 keys event (event ∷ []) ≡ some none)
    ↔ IsAdmissible base 10 keys event (event ∷ [])
validate_iff_example = validate_iff base 10 keys event (event ∷ [])

enqueue_lem_example :
    Sends
      (λ start. ltb start 8)
      (replicate 9 event)
      0
      (enqueue (λ start. ltb start 8) (replicate 9 event))
enqueue_lem_example = enqueue_lem (λ start. ltb start 8) (replicate 9 event)
