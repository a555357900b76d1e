-- ===== src/World/Laws.antt =====
-- Looking up what was just updated: sessions, contexts and files.
use xdccget_for_windows.Bytes.Laws.{str_equals_iff}
use xdccget_for_windows.Base.{
  zero, ℕ, Bool, List, ◌==◌, get_elem?, ◌∷◌, [], ◌≡◌, some, refl, suc, set, inr, Bool-cases, inl,
  arith,
}
use xdccget_for_windows.World.{IrcDccSession, on_file, find_session, World, update_session}
use xdccget_for_windows.Bytes.{Bytes, str_equals}

pub find_session-id :
    (i : ℕ) (ss : List IrcDccSession) (s : IrcDccSession)
    → find_session (λ x. x.id == i) ss ≡ some s
    → s.id ≡ i
find_session-id i [] s h = cc
find_session-id i (x ∷ ss) s h = elim (Bool-cases (x.id == i)) [
  | inl e ↦ ground (arith, e)
  | inr e ↦ find_session-id i ss s (ground (arith, e))
]

pub find_session-update_session :
    (i : ℕ) (f : IrcDccSession → IrcDccSession)
    → ((x : IrcDccSession) → (f x).id ≡ x.id)
    → (ss : List IrcDccSession) (s : IrcDccSession) → find_session (λ x. x.id == i) ss ≡ some s
    → find_session (λ x. x.id == i) (update_session i f ss) ≡ some (f s)
find_session-update_session i f same [] s h = cc
find_session-update_session i f same (x ∷ ss) s h = elim (Bool-cases (x.id == i)) [
  | inl e ↦ ground (arith, e, same x)
  | inr e ↦ ground (arith, e, find_session-update_session i f same ss s)
]

-- A session that some test finds is found by its id, as itself or as an earlier one.
pub find_session_by_id :
    (test : IrcDccSession → Bool) (ss : List IrcDccSession) (s : IrcDccSession)
    → find_session test ss ≡ some s
    → (s₁ : IrcDccSession) × (find_session (λ x. x.id == s.id) ss ≡ some s₁)
find_session_by_id test [] s h = cc
find_session_by_id test (x ∷ ss) s h = elim (Bool-cases (x.id == s.id)) [
  | inl e ↦ (x, ground (arith, e))
  | inr e ↦ elim (Bool-cases (test x)) [
    | inl t ↦ absurd (ground (arith, e, t))
    | inr t ↦
        let (s₁, e₁) = find_session_by_id test ss s (ground (arith, e, t)) in
        (s₁, ground (arith, e, e₁))
  ]
]

pub get_elem?-set :
    {A : Type 0} (xs : List A) (k : ℕ) (a b : A)
    → get_elem? xs k ≡ some a
    → get_elem? (set xs k b) k ≡ some b
get_elem?-set [] k a b h = cc
get_elem?-set (x ∷ xs) zero a b h = refl
get_elem?-set (x ∷ xs) (suc k) a b h = get_elem?-set xs k a b h

pub on_file_self :
    (w : World) (path content : Bytes) → (on_file w path content).files path ≡ some content
unfolding str_equals
on_file_self w path content = rw ((str_equals_iff path path).1 refl) refl
