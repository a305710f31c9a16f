-- ===== src/Gossip/PoolQueue/Oldest.antt =====
-- The queue keeps its order and its bound.
use go_mini_opera.Prelude.{
  ℕ, zero, suc, ◌+◌, ◌-◌, ◌<◌, ◌≤◌, ◌≡◌, refl, sym, ap, ◌∙◌, subst, inl, inr, true, false, Option,
  none, some, [], ◌∷◌, ◌++◌, ◌==◌, length, length-append, Bool-cases, arith,
}
use go_mini_opera.Gossip.PoolQueue.{
  Entries, PoolQueue, entry_at, delete_at, fetch_from, fetched_entry, fetch_oldest, is_entry,
  remove_entry, put_latest, drop_oldest, then_put, set_latest,
}

-- The indexes grow, from `lo` on and below `hi`.
abbrev pub IsAscending : ℕ → Entries → ℕ → Type 0
IsAscending lo [] hi = lo ≤ hi
IsAscending lo ((k, e) ∷ es) hi = (lo ≤ k) × IsAscending (suc k) es hi

IsAscending-from :
    (lo lo' : ℕ) (es : Entries) (hi : ℕ) → lo ≤ lo' → IsAscending lo' es hi → IsAscending lo es hi
IsAscending-from lo lo' [] hi le h = omega arith
IsAscending-from lo lo' ((k, e) ∷ es) hi le (from, h) = (omega arith, h)

entry_at_below :
    (lo : ℕ) (es : Entries) (hi x : ℕ) → IsAscending lo es hi → x < lo → entry_at es x ≡ none
unfolding entry_at
entry_at_below lo [] hi x h below = refl
entry_at_below lo ((k, e) ∷ es) hi x (from, h) below =
    let rest = entry_at_below (suc k) es hi x h (omega arith) in ground arith

delete_at_below :
    (lo : ℕ) (es : Entries) (hi x : ℕ) → IsAscending lo es hi → x < lo → delete_at es x ≡ es
unfolding delete_at
delete_at_below lo [] hi x h below = refl
delete_at_below lo ((k, e) ∷ es) hi x (from, h) below =
    let differ : (k == x) ≡ false = ground arith in
    rw (differ, delete_at_below (suc k) es hi x h (omega arith)) refl

delete_at-IsAscending :
    (lo : ℕ) (es : Entries) (hi x : ℕ) → IsAscending lo es hi → IsAscending lo (delete_at es x) hi
unfolding delete_at
delete_at-IsAscending lo [] hi x h = h
delete_at-IsAscending lo ((k, e) ∷ es) hi x (from, h) =
    let rest = delete_at-IsAscending (suc k) es hi x h in
    elim (Bool-cases (k == x)) [
      | inl same ↦ rw same (IsAscending-from lo (suc k) (delete_at es x) hi (omega arith) rest)
      | inr differ ↦ rw differ (from, rest)
    ]

length-delete_at : (es : Entries) (x : ℕ) → length (delete_at es x) ≤ length es
unfolding delete_at
length-delete_at [] x = omega arith
length-delete_at ((k, e) ∷ es) x = let rest = length-delete_at es x in ground arith

length-delete_at_there :
    (es : Entries) (x : ℕ) {e : ℕ} → entry_at es x ≡ some e → length (delete_at es x) < length es
unfolding delete_at entry_at
length-delete_at_there [] x found = cc
length-delete_at_there ((k, f) ∷ es) x found = elim (Bool-cases (k == x)) [
  | inl same ↦ let rest = length-delete_at es x in rw same (omega arith)
  | inr differ ↦
      let rest = length-delete_at_there es x (rw differ at found) in rw differ (omega arith)
]

append-IsAscending :
    (lo : ℕ) (es : Entries) (hi e : ℕ)
    → IsAscending lo es hi
    → IsAscending lo (es ++ ((hi, e) ∷ [])) (hi + 1)
append-IsAscending lo [] hi e h = (h, omega arith)
append-IsAscending lo ((k, f) ∷ es) hi e (from, h) = (from, append-IsAscending (suc k) es hi e h)

entry_at_first :
    (k e : ℕ) (es : Entries) (x : ℕ) → (k == x) ≡ true → entry_at ((k, e) ∷ es) x ≡ some e
unfolding entry_at
entry_at_first k e es x same = rw same refl

delete_at_first :
    (k e : ℕ) (es : Entries) (x : ℕ) → (k == x) ≡ true → delete_at ((k, e) ∷ es) x ≡ delete_at es x
unfolding delete_at
delete_at_first k e es x same = rw same refl

fetched :
    (fuel : ℕ) (q : PoolQueue) (e : ℕ)
    → entry_at q.entries q.old_ptr ≡ some e
    → fetch_from (suc fuel) q
      ≡ some (e, record q { entries = delete_at q.entries q.old_ptr; old_ptr = q.old_ptr + 1 })
unfolding fetch_from
fetched fuel q e found = ground arith

passed :
    (fuel : ℕ) (q : PoolQueue)
    → entry_at q.entries q.old_ptr ≡ none
    → fetch_from (suc fuel) q ≡ fetch_from fuel (record q { old_ptr = q.old_ptr + 1 })
unfolding fetch_from
passed fuel q missing = ground arith

-- The loop finds the first entry.
fetch_from_lem :
    (fuel : ℕ) (q : PoolQueue) (k e : ℕ) (es : Entries)
    → q.entries ≡ (k, e) ∷ es
    → IsAscending q.old_ptr ((k, e) ∷ es) q.new_ptr
    → k < q.old_ptr + fuel
    → fetch_from fuel q ≡ some (e, record q { entries = es; old_ptr = k + 1 })
fetch_from_lem zero q k e es whole (from, h) reach = absurd (omega arith)
fetch_from_lem (suc fuel) q k e es whole (from, h) reach = elim (Bool-cases (k == q.old_ptr)) [
  | inl same ↦
      let here : k ≡ q.old_ptr = ground arith in
      let found : entry_at q.entries q.old_ptr ≡ some e =
        ap (λ l. entry_at l q.old_ptr) whole ∙ entry_at_first k e es q.old_ptr same in
      let rest : delete_at q.entries q.old_ptr ≡ es =
        ap (λ l. delete_at l q.old_ptr) whole
        ∙ (delete_at_first k e es q.old_ptr same
            ∙ delete_at_below (suc k) es q.new_ptr q.old_ptr h (omega arith)) in
      fetched fuel q e found
      ∙ ap (λ l. some (e, record q { entries = l; old_ptr = q.old_ptr + 1 })) rest
      ∙ ap (λ n. some (e, record q { entries = es; old_ptr = n + 1 })) (sym here)
  | inr differ ↦
      let above : q.old_ptr < k = ground arith in
      let missing : entry_at q.entries q.old_ptr ≡ none =
        ap (λ l. entry_at l q.old_ptr) whole
        ∙ entry_at_below k ((k, e) ∷ es) q.new_ptr q.old_ptr (omega arith, h) above in
      passed fuel q missing
      ∙ fetch_from_lem fuel (record q { old_ptr = q.old_ptr + 1 }) k e es whole (omega arith, h)
          (omega arith)
]

-- The queue is in order, and has at most its most entries.
abbrev pub IsQueue : PoolQueue → Type 0
IsQueue q =
    IsAscending q.old_ptr q.entries q.new_ptr × (length q.entries ≤ q.max_cnt) × (0 < q.max_cnt)

cons_of :
    (es : Entries) → 0 < length es → (k : ℕ) × (e : ℕ) × (rest : Entries) × (es ≡ (k, e) ∷ rest)
cons_of [] h = absurd (omega arith)
cons_of ((k, e) ∷ rest) h = (k, e, rest, refl)

below_new : (lo k e : ℕ) (es : Entries) (hi : ℕ) → IsAscending lo ((k, e) ∷ es) hi → k < hi
below_new lo k e [] hi (from, h) = omega arith
below_new lo k e ((j, f) ∷ es) hi (from, (next, h)) =
    let last = below_new j j f es hi (omega arith, h) in omega arith

some_entries :
    (q : PoolQueue) (k e : ℕ) (es : Entries)
    → q.entries ≡ (k, e) ∷ es
    → (length q.entries == 0) ≡ false
some_entries q k e es whole =
    let sized : length q.entries ≡ suc (length es) = ap (λ (l : Entries). length l) whole in
    ground arith

fetch_oldest_lem :
    (q : PoolQueue) (k e : ℕ) (es : Entries)
    → q.entries ≡ (k, e) ∷ es
    → IsAscending q.old_ptr ((k, e) ∷ es) q.new_ptr
    → fetch_oldest q ≡ some (some e, record q { entries = es; old_ptr = k + 1 })
unfolding fetch_oldest
fetch_oldest_lem q k e es whole (from, h) =
    let early = below_new q.old_ptr k e es q.new_ptr (from, h) in
    let filled : (length q.entries == 0) ≡ false = some_entries q k e es whole in
    rw filled (
      ap fetched_entry
        (fetch_from_lem (q.new_ptr - q.old_ptr) q k e es whole (from, h) (omega arith)))

-- Removing an entry keeps the order and only makes the queue shorter.
abbrev Shrinks : PoolQueue → PoolQueue → Type 0
Shrinks q q' =
    IsAscending q.old_ptr q'.entries q.new_ptr
    × (length q'.entries ≤ length q.entries)
    × (q'.new_ptr ≡ q.new_ptr)
    × (q'.old_ptr ≡ q.old_ptr)
    × (q'.max_cnt ≡ q.max_cnt)

remove_entry-Shrinks :
    (q : PoolQueue) (e : ℕ)
    → IsAscending q.old_ptr q.entries q.new_ptr
    → Shrinks q (remove_entry q e)
unfolding remove_entry
remove_entry-Shrinks q e h = elim (Bool-cases (is_entry (entry_at q.entries (q.queue_idx e)) e)) [
  | inl there ↦ rw there (
    delete_at-IsAscending q.old_ptr q.entries q.new_ptr (q.queue_idx e) h,
    length-delete_at q.entries (q.queue_idx e),
    refl,
    refl,
    refl,
  )
  | inr gone ↦ rw gone (h, omega arith, refl, refl, refl)
]

pub remove_entry-IsQueue : (q : PoolQueue) (e : ℕ) → IsQueue q → IsQueue (remove_entry q e)
unfolding remove_entry
remove_entry-IsQueue q e (ascending, few, most) =
    let shorter = length-delete_at q.entries (q.queue_idx e) in
    elim (Bool-cases (is_entry (entry_at q.entries (q.queue_idx e)) e)) [
      | inl there ↦ rw there (
        delete_at-IsAscending q.old_ptr q.entries q.new_ptr (q.queue_idx e) ascending,
        omega arith,
        most,
      )
      | inr gone ↦ rw gone (ascending, few, most)
    ]

-- Where the entry is after setLatest.
abbrev pub IsLatest : PoolQueue → ℕ → PoolQueue → Type 0
IsLatest q e q' =
    (es : Entries) × (q'.entries ≡ es ++ ((q.new_ptr, e) ∷ [])) × (q'.queue_idx e ≡ q.new_ptr)

put_latest_lem :
    (q : PoolQueue) (e : ℕ)
    → IsAscending q.old_ptr q.entries q.new_ptr
    → length q.entries < q.max_cnt
    → IsQueue (put_latest q e) × IsLatest q e (put_latest q e)
put_latest_lem q e h room = (
  (
    append-IsAscending q.old_ptr q.entries q.new_ptr e h,
    omega (arith, length-append q.entries ((q.new_ptr, e) ∷ [])),
    omega arith,
  ),
  (q.entries, refl, let same : (e == e) ≡ true = ground arith in rw same refl),
)

-- setLatest ends with the entry as the latest one.
abbrev pub SetsLatest : PoolQueue → ℕ → Option PoolQueue → Type 0
SetsLatest q e run =
    (q' : PoolQueue) × (run ≡ some q')
    × IsQueue q'
    × ((es : Entries) × (q'.entries ≡ es ++ ((q.new_ptr, e) ∷ [])) × (q'.queue_idx e ≡ q.new_ptr))

drop_and_put :
    (q : PoolQueue) (e : ℕ)
    → IsQueue q
    → length q.entries ≡ q.max_cnt
    → SetsLatest q e (then_put (drop_oldest (fetch_oldest q)) e)
drop_and_put q e (ascending, few, most) full =
    let (k, old, rest, whole) = cons_of q.entries (omega arith) in
    let split = subst (λ l. IsAscending q.old_ptr l q.new_ptr) whole ascending in
    let q1 = record q { entries = rest; old_ptr = k + 1 } in
    let done = fetch_oldest_lem q k old rest whole split in
    let after : IsAscending (k + 1) rest q.new_ptr =
      IsAscending-from (k + 1) (suc k) rest q.new_ptr (omega arith) split.1 in
    let (kept, shorter, new, oldest, max) = remove_entry-Shrinks q1 old after in
    let sized : length q.entries ≡ suc (length rest) = ap (λ (l : Entries). length l) whole in
    let q2 = record (remove_entry q1 old) { removed = q1.removed ++ (old ∷ []) } in
    let kept' : IsAscending q2.old_ptr q2.entries q2.new_ptr =
      subst (λ n. IsAscending n q2.entries q2.new_ptr) (sym oldest)
        (subst (λ n. IsAscending (k + 1) q2.entries n) (sym new) kept) in
    let (queue, latest) = put_latest_lem q2 e kept' (omega arith) in
    let (es, entries, idx) = latest in
    (
      put_latest q2 e,
      ap (λ r. then_put (drop_oldest r) e) done,
      queue,
      (es, entries ∙ ap (λ n. es ++ ((n, e) ∷ [])) new, idx ∙ new),
    )

is_entry-some : (o : Option ℕ) (e : ℕ) → is_entry o e ≡ true → (f : ℕ) × (o ≡ some f)
is_entry-some none e h = absurd cc
is_entry-some (some f) e h = (f, refl)

-- When the indexes of an entry queue lie from its old pointer on and below its new one, and its
-- entries number at most maxCnt, which is not 0, setLatest ends, the loop of fetchOldest included,
-- with such a queue again, in which the entry is the latest and has the former new pointer as its
-- index.
pub set_latest-SetsLatest : (q : PoolQueue) (e : ℕ) → IsQueue q → SetsLatest q e (set_latest q e)
unfolding set_latest
set_latest-SetsLatest q e (ascending, few, most) =
    elim (Bool-cases (is_entry (entry_at q.entries (q.queue_idx e)) e)) [
      | inl there ↦
          let q1 = record q { entries = delete_at q.entries (q.queue_idx e) } in
          let less : length q1.entries < length q.entries =
            let (f, found) = is_entry-some (entry_at q.entries (q.queue_idx e)) e there in
            length-delete_at_there q.entries (q.queue_idx e) found in
          let (queue, latest) =
            put_latest_lem q1 e
              (delete_at-IsAscending q.old_ptr q.entries q.new_ptr (q.queue_idx e) ascending)
              (omega arith) in
          (put_latest q1 e, rw there refl, queue, latest)
      | inr absent ↦ elim (Bool-cases (length q.entries == q.max_cnt)) [
        | inl full ↦ rw (absent, full) (drop_and_put q e (ascending, few, most) (ground arith))
        | inr room ↦
            let (queue, latest) = put_latest_lem q e ascending (ground arith) in
            (put_latest q e, rw (absent, room) refl, queue, latest)
      ]
    ]
