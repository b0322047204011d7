-- ===== src/Signal/Inbox/Pages.antt =====
-- signalbox/store.go: a reader that goes on from the cursor of a page misses nothing and sees nothing twice.
use rin.Common.{
  ℕ, zero, suc, ◌≤◌, ◌<◌, ◌≡◌, refl, sym, ap, subst, ◌∙◌, false, List, [], ◌∷◌, ◌++◌, arith, inl,
  inr, Bool-cases, leb, leb→le, ◌⊎◌, length, take, map,
}
use rin.Signal.{Signal}
use rin.Signal.Inbox.{Inbox, drop_first, newer, last_cursor, shown, page_of}
use rin.Signal.Inbox.Bounds.{IsRising, IsSound}

le-cases : (a b : ℕ) → (a ≤ b) ⊎ (b < a)
le-cases a b = elim (Bool-cases (leb a b)) [
  | inl h ↦ inl (leb→le a b h)
  | inr h ↦ inr (ground (arith, h))
]

newer-all :
    (after low high : ℕ) (items : List Signal)
    → after ≤ low
    → IsRising low high items
    → newer after items ≡ items
unfolding newer
newer-all after low high [] h r = refl
newer-all after low high (item ∷ items) h r =
    let rest = newer-all after item.cursor high items (omega (arith, r.0)) r.1 in
    ground (arith, r.0, rest)

last_cursor-le :
    (low high n : ℕ) (items : List Signal)
    → IsRising low high items
    → low ≤ last_cursor low (take n items)
last_cursor-le low high zero items r = omega arith
last_cursor-le low high (suc n) [] r = omega arith
last_cursor-le low high (suc n) (item ∷ items) r =
    omega (arith, r.0, last_cursor-le item.cursor high n items r.1)

newer-IsRising :
    (after low high : ℕ) (items : List Signal)
    → IsRising low high items
    → after ≤ high
    → IsRising after high (newer after items)
unfolding newer
newer-IsRising after low high [] r h = h
newer-IsRising after low high (item ∷ items) r h = elim (le-cases item.cursor after) [
  | inl old ↦ ground (arith, old, newer-IsRising after item.cursor high items r.1 h)
  | inr new ↦
      let rest = newer-all after item.cursor high items (omega (arith, new)) r.1 in
      ground (arith, new, rest, r.1)
]

newer-skip :
    (after : ℕ) (item : Signal) (items : List Signal)
    → item.cursor ≤ after
    → newer after (item ∷ items) ≡ newer after items
unfolding newer
newer-skip after item items h = ground (arith, h)

newer-keep :
    (after : ℕ) (item : Signal) (items : List Signal)
    → after < item.cursor
    → newer after (item ∷ items) ≡ item ∷ newer after items
unfolding newer
newer-keep after item items h = ground (arith, h)

high-le : (low high : ℕ) (items : List Signal) → IsRising low high items → low ≤ high
high-le low high [] r = r
high-le low high (x ∷ xs) r = omega (arith, r.0, high-le x.cursor high xs r.1)

newer-resume :
    (after limit low high : ℕ) (items : List Signal)
    → IsRising low high items
    → after ≤ high
    → newer (last_cursor after (take limit (newer after items))) items
      ≡ drop_first limit (newer after items)
unfolding drop_first newer
newer-resume after zero low high items r h = refl
newer-resume after (suc limit) low high [] r h = refl
newer-resume after (suc limit) low high (item ∷ items) r h = elim (le-cases item.cursor after) [
  | inl old ↦
      let skip = newer-skip after item items old in
      let risen = newer-IsRising after item.cursor high items r.1 h in
      let later = last_cursor-le after high (suc limit) (newer after items) risen in
      subst
        (λ ns.
          newer (last_cursor after (take (suc limit) ns)) (item ∷ items)
          ≡ drop_first (suc limit) ns)
        (sym skip)
        (newer-skip (last_cursor after (take (suc limit) (newer after items))) item items
            (omega (arith, old, later))
          ∙ newer-resume after (suc limit) item.cursor high items r.1 h)
  | inr new ↦
      let keep = newer-keep after item items (omega (arith, new)) in
      let rest = newer-all after item.cursor high items (omega (arith, new)) r.1 in
      let same = newer-all item.cursor item.cursor high items (omega arith) r.1 in
      let later = last_cursor-le item.cursor high limit items r.1 in
      let again =
        newer-resume item.cursor limit item.cursor high items r.1
          (high-le item.cursor high items r.1) in
      subst
        (λ ns.
          newer (last_cursor after (take (suc limit) ns)) (item ∷ items)
          ≡ drop_first (suc limit) ns)
        (sym (keep ∙ ap (λ ns. item ∷ ns) rest))
        (newer-skip (last_cursor item.cursor (take limit items)) item items (omega (arith, later))
          ∙ subst
              (λ ns. newer (last_cursor item.cursor (take limit ns)) items ≡ drop_first limit ns)
              same again)
]

take-drop_first : (n : ℕ) (items : List Signal) → take n items ++ drop_first n items ≡ items
unfolding drop_first
take-drop_first zero items = refl
take-drop_first (suc n) [] = refl
take-drop_first (suc n) (item ∷ items) = ap (λ rest. item ∷ rest) (take-drop_first n items)

map-append : (xs ys : List Signal) → map shown (xs ++ ys) ≡ map shown xs ++ map shown ys
map-append [] ys = refl
map-append (x ∷ xs) ys = ap (λ rest. shown x ∷ rest) (map-append xs ys)

drop_first-all : (n : ℕ) (items : List Signal) → length items ≤ n → drop_first n items ≡ []
unfolding drop_first
drop_first-all zero [] h = refl
drop_first-all zero (item ∷ items) h = absurd (omega arith)
drop_first-all (suc n) [] h = refl
drop_first-all (suc n) (item ∷ items) h = drop_first-all n items (omega arith)

-- The signals behind a cursor of a sound inbox are those of the page and then those behind the page's
-- cursor; and where the page says that there are no more, none is behind it.
pub page_of-resume :
    (box : Inbox) (after limit : ℕ)
    → IsSound box
    → after ≤ box.next_cursor
    → (map shown (newer after box.signals)
        ≡ (page_of box after limit).signals
          ++ map shown (newer (page_of box after limit).next_cursor box.signals))
      × ((page_of box after limit).more ≡ false
          → newer (page_of box after limit).next_cursor box.signals ≡ [])
unfolding page_of
page_of-resume box after limit h within =
    let items = newer after box.signals in
    let rest = newer-resume after limit 0 box.next_cursor box.signals h.rising within in
    (
      ap (map shown) (sym (take-drop_first limit items))
          ∙ map-append (take limit items) (drop_first limit items)
          ∙ ap (λ r. map shown (take limit items) ++ map shown r) (sym rest),
      λ no_more. rest ∙ drop_first-all limit items (ground (arith, no_more)),
    )
