-- ===== src/GatewayIn/Registry/Order.antt =====
-- `orderSessionsLocked` of registry.go: the ready tunnels of each data center, which are sorted by id,
-- from the one that is due, one data center after another.
use marketmesh.Prelude.{
  ℕ, zero, suc, ◌+◌, ◌-◌, ◌%◌, ◌≤◌, ◌<◌, ◌≡◌, refl, sym, ap, ◌∙◌, List, [], ◌∷◌, ◌++◌, arith,
  length, get_or, take, drop, length-drop, take-all, drop-get_or,
}
use marketmesh.GatewayIn.Registry.{Tunnel}
use native.Mathlib.Nat.{mod-eq_of_lt, add-mod_right}

-- The ready tunnels of a data center, and the place of the one that is due. The code makes no entry
-- for a data center without a ready tunnel.
pub record Group : Type 0 where
  pub next_session : ℕ
  pub sessions : List Tunnel

-- The loop over the offsets, with how many are left. The first tunnel stands for what is never read.
unfoldable pub sessions_from : Tunnel → List Tunnel → ℕ → ℕ → ℕ → List Tunnel
sessions_from first sessions start offset zero = []
sessions_from first sessions start offset (suc left) =
    get_or sessions ((start + offset) % length sessions) first
    ∷ sessions_from first sessions start (suc offset) left

unfoldable pub group_order : ℕ → List Tunnel → List Tunnel
unfolding sessions_from
group_order next_session [] = []
group_order next_session (s ∷ ss) =
    sessions_from s (s ∷ ss) (next_session % length (s ∷ ss)) 0 (length (s ∷ ss))

unfoldable pub order_sessions : List Group → List Tunnel
unfolding group_order
order_sessions [] = []
order_sessions (g ∷ gs) = group_order g.next_session g.sessions ++ order_sessions gs

-- Each list cut at the place of the tunnel that is due, and its parts swapped.
abbrev pub rotations : List Group → List Tunnel
rotations [] = []
rotations (g ∷ gs) =
    (drop (g.next_session % length g.sessions) g.sessions
      ++ take (g.next_session % length g.sessions) g.sessions)
    ++ rotations gs

-- As long as the places follow one another, the loop gives a slice.
sessions_from_slice :
    (d : Tunnel) (xs : List Tunnel) (start offset place left : ℕ)
    → ((j : ℕ) → j < left → (start + (offset + j)) % length xs ≡ place + j)
    → place + left ≤ length xs
    → sessions_from d xs start offset left ≡ take left (drop place xs)
unfolding sessions_from
sessions_from_slice d xs start offset place zero at h = refl
sessions_from_slice d xs start offset place (suc left) at h =
    ap (λ (k : ℕ). get_or xs k d ∷ sessions_from d xs start (suc offset) left) here
    ∙ ap (◌∷◌ (get_or xs place d))
        (sessions_from_slice d xs start (suc offset) (suc place) left later (omega arith))
    ∙ sym (ap (take (suc left)) (drop-get_or place xs d (omega arith)))
  where
    modulo : (a b : ℕ) → a ≡ b → a % length xs ≡ b % length xs
    modulo a b e = ap (λ (k : ℕ). k % length xs) e

    here : (start + offset) % length xs ≡ place
    here =
        modulo (start + offset) (start + (offset + 0)) (omega arith)
        ∙ at 0 (omega arith)
        ∙ omega arith

    later : (j : ℕ) → j < left → (start + (suc offset + j)) % length xs ≡ suc place + j
    later j p =
        modulo (start + (suc offset + j)) (start + (offset + suc j)) (omega arith)
        ∙ at (suc j) (omega arith)
        ∙ omega arith

sessions_from_split :
    (d : Tunnel) (xs : List Tunnel) (start offset a b : ℕ)
    → sessions_from d xs start offset (a + b)
      ≡ sessions_from d xs start offset a ++ sessions_from d xs start (offset + a) b
unfolding sessions_from
sessions_from_split d xs start offset zero b =
    ap (λ (k : ℕ). sessions_from d xs start offset k) counted
    ∙ ap (λ (k : ℕ). sessions_from d xs start k b) shifted
  where
    counted : 0 + b ≡ b
    counted = omega arith

    shifted : offset ≡ offset + 0
    shifted = omega arith
sessions_from_split d xs start offset (suc a) b =
    ap (sessions_from d xs start offset) counted
    ∙ ap (◌∷◌ (get_or xs ((start + offset) % length xs) d)) (
        sessions_from_split d xs start (suc offset) a b
        ∙ ap (λ (k : ℕ). sessions_from d xs start (suc offset) a ++ sessions_from d xs start k b)
            shifted)
  where
    counted : suc a + b ≡ suc (a + b)
    counted = omega arith

    shifted : suc offset + a ≡ offset + suc a
    shifted = omega arith

sessions_from_rotation :
    (d : Tunnel) (xs : List Tunnel) (start : ℕ)
    → start < length xs
    → sessions_from d xs start 0 (length xs) ≡ drop start xs ++ take start xs
sessions_from_rotation d xs start h =
    ap (sessions_from d xs start 0) counted
    ∙ sessions_from_split d xs start 0 (length xs - start) start
    ∙ ap (λ (ys : List Tunnel). ys ++ sessions_from d xs start (0 + (length xs - start)) start)
        later_part
    ∙ ap (◌++◌ (drop start xs)) first_part
  where
    counted : length xs ≡ (length xs - start) + start
    counted = omega arith

    wrapped : (j : ℕ) → j < start → (start + ((0 + (length xs - start)) + j)) % length xs ≡ 0 + j
    wrapped j p =
        ap (λ (k : ℕ). k % length xs) around
        ∙ add-mod_right j (length xs)
        ∙ mod-eq_of_lt (omega arith)
        ∙ omega arith
      where
        around : start + ((0 + (length xs - start)) + j) ≡ j + length xs
        around = omega arith

    later_part : sessions_from d xs start 0 (length xs - start) ≡ drop start xs
    later_part =
        sessions_from_slice d xs start 0 start (length xs - start)
          (λ j p. mod-eq_of_lt (omega arith) ∙ omega arith) (omega arith)
        ∙ take-all (length xs - start) (drop start xs) (length-drop start xs)

    first_part : sessions_from d xs start (0 + (length xs - start)) start ≡ take start xs
    first_part =
        sessions_from_slice d xs start (0 + (length xs - start)) 0 start wrapped (omega arith)

group_order_rotation :
    (next : ℕ) (xs : List Tunnel)
    → group_order next xs ≡ drop (next % length xs) xs ++ take (next % length xs) xs
unfolding group_order
group_order_rotation next [] = nothing (next % 0)
  where
    nothing : (n : ℕ) → [] ≡ drop {A = Tunnel} n [] ++ take {A = Tunnel} n []
    nothing zero = refl
    nothing (suc n) = refl
group_order_rotation next (x ∷ xs) =
    sessions_from_rotation x (x ∷ xs) (next % length (x ∷ xs)) (omega arith)

-- The order of the tunnels has, for one data center after another, its tunnels cut at the place that
-- is due, the later part first.
pub order_sessions_lem : (groups : List Group) → order_sessions groups ≡ rotations groups
unfolding order_sessions
order_sessions_lem [] = refl
order_sessions_lem (g ∷ gs) =
    ap (λ (ys : List Tunnel). ys ++ order_sessions gs)
      (group_order_rotation g.next_session g.sessions)
    ∙ ap
        (◌++◌ (
          drop (g.next_session % length g.sessions) g.sessions
          ++ take (g.next_session % length g.sessions) g.sessions))
        (order_sessions_lem gs)
