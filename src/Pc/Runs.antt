-- ===== src/Pc/Runs.antt =====
-- Runs of the window of SimForce_Qt/widget.cpp, taken apart event by event.
use virtual_force.Prelude.{◌≡◌, refl, arith, Option, none, some, List, [], ◌∷◌, ◌++◌}
use virtual_force.Pc.Widget.{Qt, Widget, SocketCall, Event, handle, handle_all}

module _ (qt : Qt) where
  pub handle_all-cons :
      (e : Event) (es : List Event) (w : Widget) {w' : Widget} {calls : List SocketCall}
      → handle_all qt (e ∷ es) w ≡ some (w', calls)
      → (w1 : Widget) × (first rest : List SocketCall) × (handle qt e w ≡ some (w1, first))
        × (handle_all qt es w1 ≡ some (w', rest))
        × (calls ≡ first ++ rest)
  unfolding handle_all
  handle_all-cons e es w {w'} {calls} h = go (handle qt e w) refl
    where
      go :
          (o : Option (Widget × List SocketCall))
          → handle qt e w ≡ o
          → (w1 : Widget) × (first rest : List SocketCall) × (handle qt e w ≡ some (w1, first))
            × (handle_all qt es w1 ≡ some (w', rest))
            × (calls ≡ first ++ rest)
      go none k = absurd (let q = rw (k, handle_all) at h in cc)
      go (some (w1, first)) k = then (handle_all qt es w1) refl
        where
          then :
              (o : Option (Widget × List SocketCall))
              → handle_all qt es w1 ≡ o
              → (w1 : Widget) × (first rest : List SocketCall) × (handle qt e w ≡ some (w1, first))
                × (handle_all qt es w1 ≡ some (w', rest))
                × (calls ≡ first ++ rest)
          then none l = absurd (let q = rw (k, handle_all, l) at h in cc)
          then (some (w2, rest)) l =
              let q = rw (k, handle_all, l) at h in
              (w1, first, rest, k, ground (arith, l), ground arith)

  -- What every event keeps holds after a run.
  pub handle_all_inv {κ} :
      (P : Widget → Type κ)
      → ((e : Event) (w w' : Widget) (calls : List SocketCall)
          → handle qt e w ≡ some (w', calls)
          → P w
          → P w')
      → (es : List Event) (w : Widget) {w' : Widget} {calls : List SocketCall}
      → handle_all qt es w ≡ some (w', calls)
      → P w
      → P w'
  unfolding handle_all
  handle_all_inv P keep [] w {w'} h p = let e : w ≡ w' = ground arith in rw e at p
  handle_all_inv P keep (e ∷ es) w h p =
      let (w1, first, rest, k, l, c) = handle_all-cons e es w h in
      handle_all_inv P keep es w1 l (keep e w w1 first k p)

  pub handle_all-step :
      (e : Event) (es : List Event) (w : Widget) {w1 w2 : Widget} {first rest : List SocketCall}
      → handle qt e w ≡ some (w1, first)
      → handle_all qt es w1 ≡ some (w2, rest)
      → handle_all qt (e ∷ es) w ≡ some (w2, first ++ rest)
  unfolding handle_all
  handle_all-step e es w h k = rw (h, handle_all, k) refl
