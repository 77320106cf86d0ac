-- ===== src/Auth/Cache.antt =====
-- The cache of resolved tokens changes no answer.
use nsqlite.Prelude.{
  ◌≡◌, refl, sym, ap, ap₂, subst, ◌∙◌, inl, inr, ℕ, List, [], ◌∷◌, map, Option, none, some, arith,
  Text, text_eq, text_eq_iff, All, Option-cases, Bool-cases,
}
use nsqlite.Auth.Tokens.{AuthRole, Crypto, hex}
use nsqlite.Auth.Check.{
  AuthState, cache_load, cache_store, scan, hash_of, check_tokens, check_auth_with_cache,
}

-- What a token is worth with no cache at all.
abbrev pub resolve : Crypto → AuthState → Text → Option (AuthRole × Text)
resolve c s [] = none
resolve c s (t ∷ ts) = elim (scan c (t ∷ ts) s.auth_tokens) [
  | none ↦ none
  | some role ↦ some (role, hex (hash_of c s (t ∷ ts)))
]

-- The checks of one client after another, on one server.
unfoldable pub check_each : Crypto → AuthState → List Text → List (Option (AuthRole × Text))
check_each c s [] = []
check_each c s (t ∷ ts) =
    (check_auth_with_cache c s t).0 ∷ check_each c (check_auth_with_cache c s t).1 ts

module _ (c : Crypto) (P : Text → Type 0) where
  -- An entry was stored for a presented token, under its hash, with the role that the scan gave.
  abbrev pub Entry : AuthState → List ℕ × AuthRole → Type 0
  Entry s (h, role) = (t : Text) × P t × (hash_of c s t ≡ h) × (scan c t s.auth_tokens ≡ some role)

  abbrev pub IsSound : AuthState → Type 0
  IsSound s = All (Entry s) s.auth_token_cache

  pub load-Entry :
      (s : AuthState) (h : List ℕ) {role : AuthRole} (m : List (List ℕ × AuthRole))
      → All (Entry s) m
      → cache_load h m ≡ some role
      → Entry s (h, role)
  unfolding cache_load
  load-Entry s h [] a e = absurd (cc)
  load-Entry s h {role} ((k, r) ∷ m) a e = elim (Bool-cases (text_eq k h)) [
    | inl hit ↦ let (t, p, q, v) = a.0 in (t, p, q ∙ (text_eq_iff k h).0 hit, v ∙ ground arith)
    | inr miss ↦ load-Entry s h {role = role} m a.1 (ground arith)
  ]

  store-All :
      (s : AuthState) (h : List ℕ) (role : AuthRole) (m : List (List ℕ × AuthRole))
      → All (Entry s) m
      → Entry s (h, role)
      → All (Entry s) (cache_store h role m)
  unfolding cache_store
  store-All s h role [] a e = (e, tt)
  store-All s h role ((k, r) ∷ m) a e = elim (Bool-cases (text_eq k h)) [
    | inl hit ↦ rw (hit, cache_store) ((e.0, e.1, e.2 ∙ sym ((text_eq_iff k h).0 hit), e.3), a.1)
    | inr miss ↦ rw (miss, cache_store) (a.0, store-All s h role m a.1 e)
  ]

  -- No two presented tokens have one salted hash.
  abbrev pub NoCollision : AuthState → Type 0
  NoCollision s = (x y : Text) → P x → P y → hash_of c s x ≡ hash_of c s y → x ≡ y

  pub check-IsSound :
      (s : AuthState) (t : Text) → P t → IsSound s → IsSound (check_auth_with_cache c s t).1
  unfolding check_auth_with_cache check_tokens
  check-IsSound s [] p a = a
  check-IsSound s (x ∷ xs) p a =
      elim (Option-cases (cache_load (hash_of c s (x ∷ xs)) s.auth_token_cache)) [
        | inr (role, hit) ↦ rw (hit, check_auth_with_cache) a
        | inl miss ↦ elim (Option-cases (scan c (x ∷ xs) s.auth_tokens)) [
          | inl unknown ↦ rw (miss, check_auth_with_cache) (rw (unknown, check_tokens) a)
          | inr (role, known) ↦
              rw (miss, check_auth_with_cache)
                (rw (known, check_tokens)
                  (store-All s _ role s.auth_token_cache a (x ∷ xs, p, refl, known)))
        ]
      ]

  pub check-with_cache :
      (s : AuthState) (t : Text)
      → (check_auth_with_cache c s t).1
        ≡ record s { auth_token_cache = (check_auth_with_cache c s t).1.auth_token_cache }
  unfolding check_auth_with_cache check_tokens
  check-with_cache s [] = refl
  check-with_cache s (x ∷ xs) = ground arith

  pub check-resolve :
      (s : AuthState) (t : Text)
      → P t
      → NoCollision s
      → IsSound s
      → (check_auth_with_cache c s t).0 ≡ resolve c s t
  unfolding check_auth_with_cache check_tokens
  check-resolve s [] p inj a = refl
  check-resolve s (x ∷ xs) p inj a =
      elim (Option-cases (cache_load (hash_of c s (x ∷ xs)) s.auth_token_cache)) [
        | inr (role, hit) ↦
            let (t, pt, q, v) = load-Entry s _ {role = role} s.auth_token_cache a hit in
            let same : t ≡ x ∷ xs = inj t (x ∷ xs) pt p q in
            let w : scan c (x ∷ xs) s.auth_tokens ≡ some role = rw same at v in
            rw (hit, check_auth_with_cache) (rw (w, resolve) refl)
        | inl miss ↦ ground arith
      ]

  check_each-resolve_from :
      (s : AuthState) (m : List (List ℕ × AuthRole)) (ts : List Text)
      → All P ts
      → NoCollision s
      → IsSound (record s { auth_token_cache = m })
      → check_each c (record s { auth_token_cache = m }) ts ≡ map (resolve c s) ts
  unfolding check_each
  check_each-resolve_from s m [] p inj a = refl
  check_each-resolve_from s m (t ∷ ts) p inj a =
      let here = record s { auth_token_cache = m } in
      let e = check-with_cache here t in
      let m' = (check_auth_with_cache c here t).1.auth_token_cache in
      let rest =
        check_each-resolve_from s m' ts p.1 inj (subst IsSound e (check-IsSound here t p.0 a)) in
      ap₂ ◌∷◌ (check-resolve here t p.0 inj a) (ap (λ z. check_each c z ts) e ∙ rest)

  -- From a sound cache, such as the empty one of a new server, every client gets what the
  -- configured tokens alone say, whatever came before, if no two presented tokens have one hash.
  pub check_each-resolve :
      (s : AuthState) (ts : List Text)
      → All P ts
      → NoCollision s
      → IsSound s
      → check_each c s ts ≡ map (resolve c s) ts
  check_each-resolve s ts p inj a = check_each-resolve_from s s.auth_token_cache ts p inj a
