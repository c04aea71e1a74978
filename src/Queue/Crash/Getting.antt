-- ===== src/Queue/Crash/Getting.antt =====
-- The same for posixipc_queue_get.
use posixipc.Prelude.{
  ℕ, zero, suc, ◌+◌, ◌-◌, ◌*◌, ◌≤◌, ◌<◌, ◌≡◌, ◌≢◌, refl, sym, ap, ◌∙◌, arith, inl, inr, List, ◌∷◌,
  take, eq-cases, store, lt-cases, leb, if◌then◌else◌, true, false,
}
use posixipc.Queue.{
  View, Memory, empty, ready, reserved_get, settle, read_bytes, get_stores, run_get,
}
use posixipc.Queue.Ring.{window, window-next, window-shift, item_at, contents, IsView, IsRing}
use posixipc.Queue.Get.{get_done, head_slot, get_done-contents}
use posixipc.Queue.Recover.Contiguous.{HoldsBlock, recover-block}
use posixipc.Queue.Crash.{RecoversTo, settle-empty, settle-ready, settle-reserved_get}
use posixipc.Queue.Crash.Blocks.{ring-HoldsBlock, HoldsBlock-ext, HoldsBlock-shrink}

not_released : (k : ℕ) → k < 2 → leb 2 k ≡ false
not_released k h = ground arith

released : (k : ℕ) → 2 ≤ k → leb 2 k ≡ true
released k h = ground arith

module _ {v : View} {m : Memory} (w : IsView v) (r : IsRing v m)
    (flat : m.ctrl.head + m.ctrl.count ≤ v.depth) (x : List ℕ) (q : List (List ℕ))
    (some_held : 0 < m.ctrl.count) (is_held : contents v m ≡ x ∷ q) where
  rest_eq : contents v (get_done v m) ≡ q
  rest_eq = cc (get_done-contents w r some_held, is_held)

  stays :
      (mk : Memory)
      → mk.payload ≡ m.payload
      → ((j : ℕ) → j < v.depth → settle (mk.state j) ≡ settle (m.state j))
      → RecoversTo v mk (x ∷ q)
  stays mk paid e =
      let (ok, ring, c) =
        recover-block mk m.ctrl.head m.ctrl.count w
          (HoldsBlock-ext mk.state e (ring-HoldsBlock r flat)) in
      (
        ok,
        ring,
        c
            ∙ ap
                (λ (p : ℕ → ℕ).
                  window v.depth (λ i. read_bytes p (i * v.stride) v.item_size) m.ctrl.head 0
                    m.ctrl.count)
                paid
            ∙ is_held,
      )

  drops :
      (mk : Memory)
      → mk.payload ≡ m.payload
      → mk.state m.ctrl.head ≡ empty
      → ((j : ℕ) → j ≢ m.ctrl.head → mk.state j ≡ m.state j)
      → RecoversTo v mk q
  drops mk paid head_empty others =
      let (ok, ring, c) = recover-block mk (m.ctrl.head + 1) (m.ctrl.count - 1) w shrunk in
      (
        ok,
        ring,
        c
            ∙ same_payload
            ∙ window-shift v.depth (item_at v m) m.ctrl.head 0 (m.ctrl.count - 1)
            ∙ sym (window-next v.depth (item_at v m) m.ctrl.head 0 (m.ctrl.count - 1))
            ∙ rest_eq,
      )
    where
      shrunk : HoldsBlock v.depth (m.ctrl.head + 1) (m.ctrl.count - 1) mk.state
      shrunk =
          HoldsBlock-shrink mk.state some_held (settle-empty (mk.state m.ctrl.head) head_empty)
            (λ j p ne. ap settle (others j ne)) (ring-HoldsBlock r flat)

      same_payload :
          window v.depth (item_at v mk) (m.ctrl.head + 1) 0 (m.ctrl.count - 1)
          ≡ window v.depth (item_at v m) (m.ctrl.head + 1) 0 (m.ctrl.count - 1)
      same_payload =
          ap
            (λ (p : ℕ → ℕ).
              window v.depth (λ i. read_bytes p (i * v.stride) v.item_size) (m.ctrl.head + 1) 0
                (m.ctrl.count - 1))
            paid

  head_ready : m.state m.ctrl.head ≡ ready
  head_ready = ap m.state (sym (head_slot w r)) ∙ r.held 0 some_held

  claimed_stays :
      (j : ℕ) → j < v.depth → settle (store m.state m.ctrl.head reserved_get j) ≡ settle (m.state j)
  claimed_stays j h = elim (eq-cases j m.ctrl.head) [
    | inl e ↦
        settle-reserved_get (store m.state m.ctrl.head reserved_get j) (ground arith)
        ∙ sym (settle-ready (m.state j) (ap m.state e ∙ head_ready))
    | inr ne ↦
        ap settle {x = store m.state m.ctrl.head reserved_get j} {y = m.state j} (ground arith)
  ]

  released_here :
      store (store m.state m.ctrl.head reserved_get) m.ctrl.head empty m.ctrl.head ≡ empty
  released_here = ground arith

  released_apart :
      (j : ℕ)
      → j ≢ m.ctrl.head
      → store (store m.state m.ctrl.head reserved_get) m.ctrl.head empty j ≡ m.state j
  released_apart j ne = ground arith

  crash_get_early :
      (k : ℕ) → k < 2 → RecoversTo v (run_get v m.ctrl.head (take k get_stores) m) (x ∷ q)
  unfolding run_get
  crash_get_early zero h = stays m refl (λ j p. refl)
  crash_get_early (suc zero) h = stays _ refl claimed_stays
  crash_get_early (suc (suc k)) h = absurd (omega arith)

  crash_get_late : (k : ℕ) → 2 ≤ k → RecoversTo v (run_get v m.ctrl.head (take k get_stores) m) q
  unfolding run_get
  crash_get_late zero h = absurd (omega arith)
  crash_get_late (suc zero) h = absurd (omega arith)
  crash_get_late (suc (suc zero)) h = drops _ refl released_here released_apart
  crash_get_late (suc (suc (suc zero))) h = drops _ refl released_here released_apart
  crash_get_late (suc (suc (suc (suc zero)))) h = drops _ refl released_here released_apart
  crash_get_late (suc (suc (suc (suc (suc k))))) h = drops _ refl released_here released_apart

  -- A ring that does not go round, whose reader dies after any number of the stores of
  -- `posixipc_queue_get`: recovery gives the items as they were if the slot was not released, and
  -- the items without the oldest if it was.
  pub crash_get :
      (k : ℕ)
      → RecoversTo v (run_get v m.ctrl.head (take k get_stores) m) (if leb 2 k then q else x ∷ q)
  crash_get k = elim (lt-cases k 2) [
    | inl early ↦ rw (not_released k early) (crash_get_early k early)
    | inr late ↦ rw (released k late) (crash_get_late k late)
  ]
