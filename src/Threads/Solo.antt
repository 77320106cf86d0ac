-- ===== src/Threads/Solo.antt =====
-- A program that runs alone, part by part.
use nsqlite.Prelude.{◌≡◌, refl, ◌∙◌, ap, true, false, arith}
use nsqlite.Db.State.{Db, Outcome, done, waits, fatal, M, acquire, release}
use nsqlite.Threads.Program.{
  Program, finish, lock, unlock, access, ◌>>=◌, solo, is_locked, set_locked, Mutex, Use, ◌>>◌, pure,
  load, store, call, acquire_mutex, release_mutex,
}

module _ {W : Type 0} where
  -- What follows an outcome.
  abbrev pub follow : {A B : Type 0} → Outcome W A → (A → M W B) → Outcome W B
  follow o k = elim o [ done a t ↦ k a t | waits t ↦ waits t | fatal ↦ fatal ]

  follow-follow :
      {A B C : Type 0} (o : Outcome W A) (g : A → M W B) (k : B → M W C) (l : A → M W C)
      → ((a : A) (t : Db W) → l a t ≡ follow (g a t) k)
      → follow o l ≡ follow (follow o g) k
  follow-follow (done a t) g k l e = e a t
  follow-follow (waits t) g k l e = refl
  follow-follow fatal g k l e = refl

  solo-bind :
      {A B : Type 0} (p : Program W A) (f : A → Program W B) (s : Db W)
      → solo (p >>= f) s ≡ follow (solo p s) (λ a. solo (f a))
  unfolding solo ◌>>=◌
  solo-bind (finish a) f s = refl
  solo-bind (lock m p) f s =
      follow-follow (acquire (is_locked m s) s (set_locked m true s)) _ _ _ (λ _ t. solo-bind p f t)
  solo-bind (unlock m p) f s =
      follow-follow (release (is_locked m s) (set_locked m false s)) _ _ _ (λ _ t. solo-bind p f t)
  solo-bind (access u g k) f s = solo-bind (k s) f (g s)

  follow-ap :
      {A B : Type 0} (o : Outcome W A) (f k : A → M W B)
      → ((a : A) (t : Db W) → f a t ≡ k a t)
      → follow o f ≡ follow o k
  follow-ap (done a t) f k e = e a t
  follow-ap (waits t) f k e = refl
  follow-ap fatal f k e = refl

  -- Part by part, each with what the call does there.
  pub bind-at :
      {A B : Type 0} (p : Program W A) (g : M W A) (f : A → Program W B) (k : A → M W B) (s : Db W)
      → solo p s ≡ g s
      → ((a : A) (t : Db W) → solo (f a) t ≡ k a t)
      → solo (p >>= f) s ≡ follow (g s) k
  bind-at p g f k s same next =
      solo-bind p f s ∙ (ap (λ o. follow o (λ a. solo (f a))) same ∙ follow-ap (g s) _ k next)

  pub bind-alone :
      {A B : Type 0} (p : Program W A) (g : M W A) (f : A → Program W B) (k : A → M W B) (s : Db W)
      → ((t : Db W) → solo p t ≡ g t)
      → ((a : A) (t : Db W) → solo (f a) t ≡ k a t)
      → solo (p >>= f) s ≡ follow (g s) k
  bind-alone p g f k s same next = bind-at p g f k s (same s) next

  pub lock-alone :
      {B : Type 0} (m : Mutex) (p : Program W B) (g : M W B) (s : Db W)
      → ((t : Db W) → solo p t ≡ g t)
      → solo (acquire_mutex m >> p) s
        ≡ follow (acquire (is_locked m s) s (set_locked m true s)) (λ _. g)
  unfolding solo ◌>>=◌
  lock-alone m p g s same =
      follow-ap (acquire (is_locked m s) s (set_locked m true s)) _ _ (λ _. same)

  pub unlock-alone :
      {B : Type 0} (m : Mutex) (p : Program W B) (g : M W B) (s : Db W)
      → ((t : Db W) → solo p t ≡ g t)
      → solo (release_mutex m >> p) s
        ≡ follow (release (is_locked m s) (set_locked m false s)) (λ _. g)
  unfolding solo ◌>>=◌
  unlock-alone m p g s same =
      follow-ap (release (is_locked m s) (set_locked m false s)) _ _ (λ _. same)

  pub store-alone :
      {B : Type 0} (f : Db W → Db W) (p : Program W B) (s : Db W) (o : Outcome W B)
      → solo p (f s) ≡ o
      → solo (store f >> p) s ≡ o
  unfolding solo ◌>>=◌
  store-alone f p s o same = same

  pub load-alone :
      {A B : Type 0} (f : Db W → A) (k : A → Program W B) (s : Db W) (o : Outcome W B)
      → solo (k (f s)) s ≡ o
      → solo (load f >>= k) s ≡ o
  unfolding solo ◌>>=◌
  load-alone f k s o same = same

  pub call-alone :
      {A B : Type 0} (u : Use) (f : W → A × W) (k : A → Program W B) (s : Db W) (o : Outcome W B)
      → solo (k (f s.world).0) (record s { world = (f s.world).1 }) ≡ o
      → solo (call u f >>= k) s ≡ o
  unfolding solo ◌>>=◌
  call-alone u f k s o same = same

pub pure-alone : {W B : Type 0} (b : B) (s : Db W) → solo (pure b) s ≡ done b s
unfolding solo
pure-alone b s = refl

pub release-alone :
    {W : Type 0} (m : Mutex) (s : Db W)
    → solo (release_mutex m) s ≡ release (is_locked m s) (set_locked m false s)
unfolding solo
release-alone m s = ground arith
