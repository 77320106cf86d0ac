-- ===== src/Stats/Counters.antt =====
-- What raising one counter does to the totals of all minutes.
use nsqlite.Prelude.{
  ℕ, ◌<◌, ◌≡◌, refl, ◌∙◌, List, [], ◌∷◌, none, some, arith, inl, ap, inr, inc, add_int64,
  Option-cases, int64_mod,
}
use nsqlite.Stats.Defs.{
  MinuteData, DbStats, empty_minute, load, update, load_or_store, get_or_create_minute_data,
  add_to_minute, minute_key,
}

-- The sum of one counter over all minutes, as int64.
unfoldable pub total : (MinuteData → ℕ) → List (ℕ × MinuteData) → ℕ
total g [] = 0
total g ((k, md) ∷ m) = add_int64 (g md) (total g m)

pub total-lt : (g : MinuteData → ℕ) (m : List (ℕ × MinuteData)) → total g m < int64_mod
unfolding total add_int64
total-lt g [] = omega arith
total-lt g ((k, md) ∷ m) = omega arith

module _ (g : MinuteData → ℕ) where
  -- A fresh entry of zeros changes no total.
  total-load_or_store :
      g empty_minute ≡ 0
      → (k : ℕ) (m : List (ℕ × MinuteData)) → total g (load_or_store k empty_minute m) ≡ total g m
  unfolding total load_or_store add_int64
  total-load_or_store z k [] = rw z refl
  total-load_or_store z k ((j, md) ∷ m) = ground (arith, total-load_or_store z k m)

  total-get_or_create :
      g empty_minute ≡ 0
      → (now : ℕ) (m : List (ℕ × MinuteData))
      → total g (get_or_create_minute_data now m) ≡ total g m
  unfolding get_or_create_minute_data
  total-get_or_create z now m = ground (arith, total-load_or_store z (minute_key now) m)

  load-load_or_store :
      (k : ℕ) (m : List (ℕ × MinuteData))
      → load k m ≡ none
      → load k (load_or_store k empty_minute m) ≡ some empty_minute
  unfolding load load_or_store
  load-load_or_store k [] h = ground arith
  load-load_or_store k ((j, md) ∷ m) h = ground (arith, load-load_or_store k m)

  total-update :
      (f : MinuteData → MinuteData)
      → ((md : MinuteData) → g (f md) ≡ inc (g md))
      → (k : ℕ) {md : MinuteData} (m : List (ℕ × MinuteData)) → load k m ≡ some md
      → total g (update k f m) ≡ inc (total g m)
  unfolding total load update add_int64 inc
  total-update f up k [] h = cc
  total-update f up k {md} ((j, old) ∷ m) h =
      ground (arith, up old, total-update f up k {md = md} m)

  load-get_or_create :
      (now : ℕ) (m : List (ℕ × MinuteData))
      → (md : MinuteData) × (load (minute_key now) (get_or_create_minute_data now m) ≡ some md)
  unfolding get_or_create_minute_data
  load-get_or_create now m = elim (Option-cases (load (minute_key now) m)) [
    | inl fresh ↦
        (empty_minute, rw (fresh, get_or_create_minute_data) (load-load_or_store _ m fresh))
    | inr (md, old) ↦ (md, rw (old, get_or_create_minute_data) old)
  ]

  -- A function that raises a counter by one raises its total by one.
  pub total-add_to_minute :
      g empty_minute ≡ 0
      → (f : MinuteData → MinuteData) → ((md : MinuteData) → g (f md) ≡ inc (g md))
      → (now : ℕ) (s : DbStats) → total g (add_to_minute f now s).minutes ≡ inc (total g s.minutes)
  unfolding add_to_minute
  total-add_to_minute z f up now s =
      let (md, found) = load-get_or_create now s.minutes in
      total-update f up _ _ found ∙ ap inc (total-get_or_create z now s.minutes)

  total-update_same :
      (f : MinuteData → MinuteData)
      → ((md : MinuteData) → g (f md) ≡ g md)
      → (k : ℕ) (m : List (ℕ × MinuteData)) → total g (update k f m) ≡ total g m
  unfolding total update
  total-update_same f same k [] = refl
  total-update_same f same k ((j, md) ∷ m) = ground (arith, same md, total-update_same f same k m)

  -- A function that leaves a counter alone leaves its total alone.
  pub total-add_to_minute_same :
      g empty_minute ≡ 0
      → (f : MinuteData → MinuteData) → ((md : MinuteData) → g (f md) ≡ g md)
      → (now : ℕ) (s : DbStats) → total g (add_to_minute f now s).minutes ≡ total g s.minutes
  unfolding add_to_minute
  total-add_to_minute_same z f same now s =
      total-update_same f same _ _ ∙ total-get_or_create z now s.minutes
