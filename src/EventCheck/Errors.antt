-- ===== src/EventCheck/Errors.antt =====
-- The errors of eventcheck/, and eventcheck/ban.go.
use go_mini_opera.Prelude.{ℕ, ◌≡◌, Bool, true, false, ◌||◌, Option, none, some, refl, if◌then◌else◌}

pub data CheckError : Type 0 where
  -- basiccheck: ErrVersion, ErrTooManyParents, ErrZeroTime.
  wrong_version too_many_parents zero_time : CheckError
  -- parentscheck: ErrPastTime.
  past_time : CheckError
  -- heavycheck: ErrWrongEventSig.
  wrong_event_sig : CheckError
  -- lachesis-base: epochcheck.ErrNotRelevant, epochcheck.ErrAuth, parentscheck.ErrWrongSelfParent,
  -- eventcheck.ErrAlreadyConnectedEvent, and the others, told apart by a number.
  not_relevant auth wrong_self_parent already_connected : CheckError
  other : ℕ → CheckError

-- A Go error: `none` is nil.
abbrev pub Failure : Type 0
Failure = Option CheckError

abbrev pub is_not_relevant : Failure → Bool
is_not_relevant (some not_relevant) = true
is_not_relevant _ = false

abbrev pub is_already_connected : Failure → Bool
is_already_connected (some already_connected) = true
is_already_connected _ = false

abbrev pub is_set : Failure → Bool
is_set none = false
is_set (some e) = true

-- `IsBan`.
unfoldable pub is_ban : Failure → Bool
is_ban e = if is_not_relevant e || is_already_connected e then false else is_set e

-- A statement of the form `if err := m; err != nil { return err }`, followed by `rest`.
infixr 4 ◌>>◌
abbrev pub ◌>>◌ : Failure → Failure → Failure
none >> rest = rest
some e >> rest = some e

pub >>-eq-none : (m rest : Failure) → (m >> rest) ≡ none → (m ≡ none) × (rest ≡ none)
>>-eq-none none rest h = (refl, h)
>>-eq-none (some e) rest h = cc
