-- ===== src/Rsp/Timers.antt =====
-- The outstanding timers of the notifications (bin/debugserver/server.cc).
use gdbserver.Base.{ℕ, List, [], ◌∷◌, ◌++◌, ◌≡◌, ◌⊎◌, inl, inr}
use gdbserver.Rsp.{Timer}

-- A delayed task for the notification at `address` is outstanding.
abbrev pub Armed : ℕ → List Timer → Type 0
Armed address [] = ⊥
Armed address (t ∷ ts) = (t.address ≡ address) ⊎ Armed address ts

pub Armed-append_right : (a : ℕ) (ts us : List Timer) → Armed a us → Armed a (ts ++ us)
Armed-append_right a [] us h = h
Armed-append_right a (t ∷ ts) us h = inr (Armed-append_right a ts us h)

pub Armed-append_left : (a : ℕ) (ts us : List Timer) → Armed a ts → Armed a (ts ++ us)
Armed-append_left a [] us h = absurd h
Armed-append_left a (t ∷ ts) us (inl e) = inl e
Armed-append_left a (t ∷ ts) us (inr h) = inr (Armed-append_left a ts us h)

pub Armed-remove :
    (a : ℕ) (pre post : List Timer) (t : Timer)
    → Armed a (pre ++ t ∷ post)
    → (t.address ≡ a) ⊎ Armed a (pre ++ post)
Armed-remove a [] post t h = h
Armed-remove a (u ∷ pre) post t (inl e) = inr (inl e)
Armed-remove a (u ∷ pre) post t (inr h) = elim (Armed-remove a pre post t h) [
  | inl e ↦ inl e
  | inr k ↦ inr (inr k)
]
