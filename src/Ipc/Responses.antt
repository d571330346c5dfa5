-- ===== src/Ipc/Responses.antt =====
-- The rings of ipc.c that this side reads, and the interrupt handler's loop over the responses.
use zenedge.Common.{
  ℕ, zero, suc, ◌+◌, ◌<◌, ◌≡◌, ◌⊎◌, refl, ◌∙◌, ap, arith, true, false, List, [], ◌∷◌, ◌==◌,
  if◌then◌else◌, u32, inl, inr, Bool-cases, Option, none, some,
}
use zenedge.Ipc.{
  Ipc, IpcResponse, ObsEntry, Arrivals, spin, poll_response, drain, after_poll, collect,
  irq_handler, stream_obs_pop, ipc_stream_magic, ipc_rsp_magic, clear_flag, doorbell_flag_pending,
}
use zenedge.Ipc.Ring.{Ring, is_empty, front, advance}
use zenedge.Ipc.Ring.Laws.{IsRing, pending, pending-advance, advance-IsRing}
use zenedge.Ipc.Ring.Queue.{queue, queue-advance, queue-empty}

-- The loop of `poll_response` stops at the first look that finds an entry.
module _ (linux : Arrivals) where
  spin-some : (n : ℕ) (r : Ring IpcResponse) → is_empty r ≡ false → spin linux n r ≡ r
  unfolding spin
  spin-some zero r e = refl
  spin-some (suc n) r e = rw e refl

  spin-quiet :
      (n : ℕ) (r : Ring IpcResponse)
      → ((k : ℕ) → (q : Ring IpcResponse) → linux k q ≡ q)
      → spin linux n r ≡ r
  unfolding spin
  spin-quiet zero r h = refl
  spin-quiet (suc n) r h = elim (Bool-cases (is_empty r)) [
    | inl e ↦ rw e (ap (spin linux n) (h n r) ∙ spin-quiet n r h)
    | inr e ↦ rw e refl
  ]

module _ {F : Type 0} (s : Ipc F) (up : s.base ≡ true)
    (valid : (s.rsp_ring.magic == ipc_rsp_magic) ≡ true) where
  pub poll_response-some :
      (linux : Arrivals)
      → is_empty s.rsp_ring ≡ false
      → poll_response linux s
        ≡ (some (front s.rsp_ring), record s { rsp_ring = advance s.rsp_ring })
  unfolding poll_response
  poll_response-some linux e = rw (up, valid, spin-some linux 5000 s.rsp_ring e, e) refl

  poll_response-quiet :
      (linux : Arrivals)
      → ((k : ℕ) → (q : Ring IpcResponse) → linux k q ≡ q)
      → is_empty s.rsp_ring ≡ true
      → poll_response linux s ≡ (none, s)
  unfolding poll_response
  poll_response-quiet linux h e = rw (up, valid, spin-quiet linux 5000 s.rsp_ring h, e) refl

abbrev pub read_all : Ring IpcResponse → Ring IpcResponse
read_all r = record r { tail = r.head }

module _ {F : Type 0} (linux : ℕ → Arrivals)
    (quiet : (j k : ℕ) → (q : Ring IpcResponse) → linux j k q ≡ q) where
  drain-none :
      (n : ℕ) (s : Ipc F)
      → poll_response (linux n) s ≡ (none, s)
      → drain linux (suc n) s ≡ some ([], s)
  unfolding drain
  drain-none n s e = ap (after_poll (drain linux n)) e

  drain-some :
      (n : ℕ) (s t : Ipc F) (r : IpcResponse) (q : List IpcResponse × Ipc F)
      → poll_response (linux n) s ≡ (some r, t)
      → drain linux n t ≡ some q
      → drain linux (suc n) s ≡ some (r ∷ q.0, q.1)
  unfolding drain
  drain-some n s t r q e d = ap (after_poll (drain linux n)) e ∙ ap (collect r) d

  drain-queue :
      (n : ℕ) (s : Ipc F)
      → s.base ≡ true
      → (s.rsp_ring.magic == ipc_rsp_magic) ≡ true
      → IsRing s.rsp_ring
      → pending s.rsp_ring < n
      → drain linux n s ≡ some (queue s.rsp_ring, record s { rsp_ring = read_all s.rsp_ring })
  unfolding drain
  drain-queue zero s up valid h lt = absurd (omega arith)
  drain-queue (suc n) s up valid h lt = elim (Bool-cases (is_empty s.rsp_ring)) [
    | inl e ↦
        let same : s.rsp_ring.tail ≡ s.rsp_ring.head = ground (arith, h.head_in) in
        drain-none n s (poll_response-quiet s up valid (linux n) (quiet n) e)
        ∙ rw (queue-empty s.rsp_ring h e)
            (ap (λ t. some ([], record s { rsp_ring = record s.rsp_ring { tail = t } })) same)
    | inr e ↦
        let t : Ipc F = record s { rsp_ring = advance s.rsp_ring } in
        drain-some n s t (front s.rsp_ring)
          (queue t.rsp_ring, record t { rsp_ring = read_all t.rsp_ring })
          (poll_response-some s up valid (linux n) e)
          (drain-queue n t up valid (advance-IsRing s.rsp_ring h)
            (omega (arith, pending-advance s.rsp_ring h e)))
        ∙ rw (queue-advance s.rsp_ring h e) refl
  ]

  -- With the shared memory up, the magic number of the response ring right and its indices below its
  -- size, and while Linux leaves that ring alone, the interrupt handler returns, with more polls than
  -- responses waiting: it reads every response in order, leaves the ring empty, counts the interrupt
  -- and clears the pending flag, and nothing else changes.
  pub irq_handler-queue :
      (fuel : ℕ) (s : Ipc F)
      → s.base ≡ true
      → s.rsp_ring.magic ≡ ipc_rsp_magic
      → IsRing s.rsp_ring
      → pending s.rsp_ring < fuel
      → irq_handler linux fuel s
        ≡ some (
          queue s.rsp_ring,
          record s {
            rsp_ring = read_all s.rsp_ring;
            irq_count = u32 (s.irq_count + 1);
            doorbell = record s.doorbell {
              rsp_flags = clear_flag s.doorbell.rsp_flags doorbell_flag_pending;
            };
          },
        )
  unfolding irq_handler
  irq_handler-queue fuel s up valid h lt =
      let m : (s.rsp_ring.magic == ipc_rsp_magic) ≡ true = rw valid refl in
      let s1 : Ipc F = record s { irq_count = u32 (s.irq_count + 1) } in
      let flags = clear_flag s.doorbell.rsp_flags doorbell_flag_pending in
      let t : Ipc F = record s1 { doorbell = record s1.doorbell { rsp_flags = flags } } in
      ap (λ b. drain linux fuel (if b then t else s1)) up ∙ drain-queue fuel t up m h lt

-- What popping an observation comes to.
pub data ObsOutcome {F : Type 0} (s : Ipc F) (r : Option (ObsEntry F) × Ipc F) : Type 0 where
  no_stream :
      (s.streams ≡ false) ⊎ ((s.obs_ring.magic == ipc_stream_magic) ≡ false)
      → r ≡ (none, s)
      → ObsOutcome s r
  empty : queue s.obs_ring ≡ [] → r ≡ (none, s) → ObsOutcome s r
  popped :
      (o : ObsEntry F) (t : Ipc F)
      → r ≡ (some o, t)
      → queue s.obs_ring ≡ o ∷ queue t.obs_ring
      → t ≡ record s { obs_ring = t.obs_ring }
      → ObsOutcome s r

module _ {F : Type 0} (s : Ipc F) where
  -- Popping an observation gives the oldest of the queue and removes it, or gives nothing and changes
  -- nothing where the stream is not set up or the queue is empty; nothing but the ring changes.
  pub stream_obs_pop-ObsOutcome : IsRing s.obs_ring → ObsOutcome s (stream_obs_pop true s)
  unfolding stream_obs_pop
  stream_obs_pop-ObsOutcome h = elim (Bool-cases s.streams) [
    | inr e ↦ no_stream (inl e) (rw e refl)
    | inl e ↦ elim (Bool-cases (s.obs_ring.magic == ipc_stream_magic)) [
      | inr m ↦ no_stream (inr m) (rw (e, m) refl)
      | inl m ↦ elim (Bool-cases (is_empty s.obs_ring)) [
        | inl f ↦
            let f' : (s.obs_ring.tail == s.obs_ring.head) ≡ true = ground arith in
            empty (queue-empty s.obs_ring h f) (rw (e, m, f') refl)
        | inr f ↦
            let f' : (s.obs_ring.tail == s.obs_ring.head) ≡ false = ground arith in
            popped (front s.obs_ring) (record s { obs_ring = advance s.obs_ring })
              (rw (e, m, f') refl) (queue-advance s.obs_ring h f) refl
      ]
    ]
  ]
