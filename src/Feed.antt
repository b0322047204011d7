-- ===== src/Feed.antt =====
-- internal/changefeed/feed.go: the ring of the last 512 changes, and the log that it stands for. A uint64
-- wraps around at 2 ^ 64. The owner's lock makes each call one step.
use rin.Common.{
  ℕ, zero, suc, ◌+◌, ◌-◌, ◌%◌, ◌≤◌, ◌<◌, ◌≡◌, ◌≢◌, refl, sym, ◌∙◌, ap, Bool, true, false, ◌||◌,
  ◌&&◌, List, [], ◌∷◌, ◌++◌, arith, ltb, leb, ◌==◌, if◌then◌else◌, length,
}

abbrev pub capacity : ℕ
capacity = 512

pub record Feed {ℓ} (A : Type ℓ) : Type ℓ where
  pub revision : ℕ
  pub entries : ℕ → A

-- What `Since` returns.
pub record Changes {ℓ} (A : Type ℓ) : Type ℓ where
  pub values : List A
  pub revision : ℕ
  pub overflow : Bool

module _ {ℓ} {A : Type ℓ} where
  -- The zero value of the type: an array of the element type's zero value.
  unfoldable pub empty : A → Feed A
  empty zero_value = record { revision = 0; entries = λ _. zero_value }

  unfoldable pub append : A → Feed A → Feed A
  append value feed = record {
    revision = (feed.revision + 1) % 18446744073709551616;
    entries = λ slot. if slot == feed.revision % capacity then value else feed.entries slot;
  }

  -- The loop of `Since`, with the number of rounds that it has left.
  unfoldable pub collect : ℕ → ℕ → (ℕ → A) → List A
  collect zero cursor entries = []
  collect (suc rounds) cursor entries =
      entries (cursor % capacity) ∷ collect rounds (cursor + 1) entries

  unfoldable pub since : ℕ → Feed A → Changes A
  unfolding collect
  since after feed =
      if ltb feed.revision after || ltb capacity (feed.revision - after)
      then record { values = []; revision = feed.revision; overflow = true }
      else if after == feed.revision
      then record { values = []; revision = feed.revision; overflow = false }
      else record {
        values = collect (feed.revision - after) after feed.entries;
        revision = feed.revision;
        overflow = false;
      }

  -- The log of all changes, the newest first, and the feed after them.
  unfoldable pub feed_of : A → List A → Feed A
  unfolding empty append
  feed_of zero_value [] = empty zero_value
  feed_of zero_value (x ∷ older) = append x (feed_of zero_value older)

  -- The changes of a log from a revision on, the oldest first.
  unfoldable pub newer : ℕ → List A → List A
  newer after [] = []
  newer after (x ∷ older) =
      let rest = newer after older in if leb after (length older) then rest ++ x ∷ [] else []

  collect_last :
      (rounds cursor : ℕ) (entries : ℕ → A)
      → collect (suc rounds) cursor entries
        ≡ collect rounds cursor entries ++ entries ((cursor + rounds) % capacity) ∷ []
  unfolding collect
  collect_last zero cursor entries = let same : cursor + 0 ≡ cursor = omega arith in rw same refl
  collect_last (suc rounds) cursor entries =
      let same : cursor + 1 + rounds ≡ cursor + suc rounds = omega arith in
      ap (λ rest. entries (cursor % capacity) ∷ rest)
        (rw (← same) (collect_last rounds (cursor + 1) entries))

  -- A slot that the loop does not read may change.
  collect-update :
      (value : A) (slot rounds cursor : ℕ) (entries : ℕ → A)
      → cursor + rounds ≤ slot
      → slot < cursor + capacity
      → collect rounds cursor (λ i. if i == slot % capacity then value else entries i)
        ≡ collect rounds cursor entries
  unfolding collect
  collect-update value slot zero cursor entries h k = refl
  collect-update value slot (suc rounds) cursor entries h k =
      let apart : cursor % capacity ≢ slot % capacity = λ e. omega arith in
      ground (
        arith,
        apart,
        collect-update value slot rounds (cursor + 1) entries (omega arith) (omega arith),
      )

  feed_of-revision :
      (zero_value : A) (log : List A)
      → length log < 18446744073709551616
      → (feed_of zero_value log).revision ≡ length log
  unfolding feed_of empty append
  feed_of-revision zero_value [] h = refl
  feed_of-revision zero_value (x ∷ older) h =
      omega (arith, feed_of-revision zero_value older (omega arith))

  append-collect :
      (value : A) (feed : Feed A) (rounds cursor : ℕ)
      → feed.revision ≡ cursor + rounds
      → rounds < capacity
      → collect (suc rounds) cursor (append value feed).entries
        ≡ collect rounds cursor feed.entries ++ value ∷ []
  unfolding append
  append-collect value feed rounds cursor e h =
      let kept =
        collect-update value feed.revision rounds cursor feed.entries (omega (arith, e))
          (omega (arith, e)) in
      let here : ((cursor + rounds) % capacity == feed.revision % capacity) ≡ true =
        ground (arith, e) in
      collect_last rounds cursor (append value feed).entries ∙ rw (kept, here) refl

  newer-next :
      (x : A) (older : List A) (after : ℕ)
      → after ≤ length older
      → newer after (x ∷ older) ≡ newer after older ++ x ∷ []
  unfolding newer
  newer-next x older after h = ground (arith, h)

  newer-none :
      (x : A) (older : List A) (after : ℕ) → length older < after → newer after (x ∷ older) ≡ []
  unfolding newer
  newer-none x older after h = ground (arith, h)

  newer_end : (log : List A) (after : ℕ) → length log ≤ after → newer after log ≡ []
  unfolding newer
  newer_end [] after h = refl
  newer_end (x ∷ older) after h = ground (arith, h)

  feed_of-collect :
      (zero_value : A) (log : List A) (rounds cursor : ℕ)
      → length log < 18446744073709551616
      → cursor + rounds ≡ length log
      → rounds ≤ capacity
      → collect rounds cursor (feed_of zero_value log).entries ≡ newer cursor log
  unfolding collect newer feed_of
  feed_of-collect zero_value [] zero cursor small e h = refl
  feed_of-collect zero_value [] (suc rounds) cursor small e h = absurd (omega arith)
  feed_of-collect zero_value (x ∷ older) zero cursor small e h =
      sym (newer-none x older cursor (omega (arith, e)))
  feed_of-collect zero_value (x ∷ older) (suc rounds) cursor small e h =
      let same = feed_of-revision zero_value older (omega arith) in
      append-collect x (feed_of zero_value older) rounds cursor (omega (arith, same, e))
        (omega arith)
      ∙ ap (λ rest. rest ++ x ∷ [])
          (feed_of-collect zero_value older rounds cursor (omega arith) (omega (arith, e))
            (omega arith))
      ∙ sym (newer-next x older cursor (omega (arith, e)))

module _ {A : Type 0} where
  -- A reader whose cursor is not past the feed and at most 512 changes behind gets exactly the changes of
  -- the log that it has not seen, the oldest first; every other reader is told to start again. In each
  -- case it is told the length of the log, which is below 2 ^ 64.
  pub since-feed_of :
      (zero_value : A) (log : List A) (after : ℕ)
      → length log < 18446744073709551616
      → since after (feed_of zero_value log) ≡ (
          if leb after (length log) && leb (length log) (after + capacity)
          then record { values = newer after log; revision = length log; overflow = false }
          else record { values = []; revision = length log; overflow = true })
  unfolding since
  since-feed_of zero_value log after small =
      let same = feed_of-revision zero_value log small in
      ground (
        arith,
        same,
        newer_end log after,
        λ (a : after ≤ length log) (b : length log ≤ after + 512).
            feed_of-collect zero_value log (length log - after) after small (omega arith)
              (omega arith),
      )
