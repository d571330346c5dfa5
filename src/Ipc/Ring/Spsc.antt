-- ===== src/Ipc/Ring/Spsc.antt =====
-- A producer and a consumer that share a ring and take turns at any point: each takes the three steps
-- of its operation, the test of the indices, the access to the entry and the move of its own index.
use mathlib.Core.Path.{subst}
use mathlib.Core.Logic.{Lift}
use mathlib.Core.List.{append_assoc}
use zenedge.Common.{
  length, ℕ, ◌^◌, ◌<◌, ◌≡◌, refl, sym, ◌∙◌, ap, arith, false, List, [], ◌∷◌, ◌++◌, ==_refl,
}
use zenedge.Ipc.Ring.{Ring, publish, write_entry, front, advance, is_full, is_empty, reset}
use zenedge.Ipc.Ring.Laws.{IsRing, next_step, publish-IsRing, advance-IsRing}
use zenedge.Ipc.Ring.Queue.{
  run, queue, length-queue, queue-publish, queue-advance, queue-write_entry,
}

pub data Producer {ℓ} (A : Type ℓ) : Type ℓ where
  idle : Producer A
  found_room : A → Producer A
  wrote : A → Producer A

pub data Consumer {ℓ} (A : Type ℓ) : Type ℓ where
  idle : Consumer A
  found_entry : Consumer A
  took : A → Consumer A

-- The ring, where the two sides are, and what they have sent and received since the start.
pub record Link {ℓ} (A : Type ℓ) : Type ℓ where
  pub ring : Ring A
  pub producer : Producer A
  pub consumer : Consumer A
  pub sent : List A
  pub received : List A

pub data Step {ℓ} {A : Type ℓ} : Link A → Link A → Type ℓ where
  test_room :
      {l : Link A} (a : A)
      → l.producer ≡ Producer.idle
      → is_full l.ring ≡ false
      → Step l (record l { producer = found_room a })
  write :
      {l : Link A} (a : A)
      → l.producer ≡ found_room a
      → Step l (record l { ring = write_entry a l.ring; producer = wrote a })
  move_head :
      {l : Link A} (a : A)
      → l.producer ≡ wrote a
      → Step l
          (record l { ring = publish l.ring; producer = Producer.idle; sent = l.sent ++ (a ∷ []) })
  test_entry :
      {l : Link A}
      → l.consumer ≡ Consumer.idle
      → is_empty l.ring ≡ false
      → Step l (record l { consumer = found_entry })
  read :
      {l : Link A} → l.consumer ≡ found_entry → Step l (record l { consumer = took (front l.ring) })
  move_tail :
      {l : Link A} (a : A)
      → l.consumer ≡ took a
      → Step l (record l {
        ring = advance l.ring;
        consumer = Consumer.idle;
        received = l.received ++ (a ∷ []);
      })

pub data Reach {ℓ} {A : Type ℓ} (l : Link A) : Link A → Type ℓ where
  start : Reach l l
  later : {m n : Link A} → Reach l m → Step m n → Reach l n

module _ {ℓ} {A : Type ℓ} where
  -- What the phase of a side promises.
  abbrev Produces : Ring A → Producer A → Type ℓ
  Produces r idle = Lift {0, ℓ} Unit
  Produces r (found_room a) = Lift {0, ℓ} (is_full r ≡ false)
  Produces r (wrote a) = (is_full r ≡ false) × (r.entries r.head ≡ a)

  abbrev Consumes : Ring A → Consumer A → Type ℓ
  Consumes r idle = Lift {0, ℓ} Unit
  Consumes r found_entry = Lift {0, ℓ} (is_empty r ≡ false)
  Consumes r (took a) = (is_empty r ≡ false) × (front r ≡ a)

  pub record Fifo (l : Link A) : Type ℓ where
    pub ring : IsRing l.ring
    pub producer : Produces l.ring l.producer
    pub consumer : Consumes l.ring l.consumer
    pub order : l.sent ≡ l.received ++ queue l.ring

  advance-room :
      (r : Ring A) → IsRing r → is_empty r ≡ false → is_full r ≡ false → is_full (advance r) ≡ false
  advance-room r h e f =
      ground (
        arith,
        h.head_in,
        h.tail_in,
        next_step r h r.head h.head_in,
        next_step r h r.tail h.tail_in,
      )

  advance-Produces :
      (r : Ring A) (p : Producer A)
      → IsRing r
      → is_empty r ≡ false
      → Produces r p
      → Produces (advance r) p
  advance-Produces r idle h e q = q
  advance-Produces r (found_room a) h e q = record { lower = advance-room r h e q.lower }
  advance-Produces r (wrote a) h e q = (advance-room r h e q.0, q.1)

  write-Consumes :
      (r : Ring A) (a : A) (c : Consumer A) → Consumes r c → Consumes (write_entry a r) c
  write-Consumes r a idle q = q
  write-Consumes r a found_entry q = q
  write-Consumes r a (took b) q = (q.0, rw q.0 q.1)

  publish-Consumes :
      (r : Ring A) (c : Consumer A) → is_full r ≡ false → Consumes r c → Consumes (publish r) c
  publish-Consumes r idle f q = q
  publish-Consumes r found_entry f q = record { lower = f }
  publish-Consumes r (took b) f q = (f, q.1)

  at :
      (l : Link A) (p : Producer A)
      → l.producer ≡ p
      → Produces l.ring l.producer
      → Produces l.ring p
  at l p e q = subst (Produces l.ring) e q

  by :
      (l : Link A) (c : Consumer A)
      → l.consumer ≡ c
      → Consumes l.ring l.consumer
      → Consumes l.ring c
  by l c e q = subst (Consumes l.ring) e q

  Step-Fifo : {l m : Link A} → Step l m → Fifo l → Fifo m
  Step-Fifo (test_room a e room) h = record {
    ring = h.ring;
    producer = record { lower = room };
    consumer = h.consumer;
    order = h.order;
  }
  Step-Fifo {l = l} (write a e) h =
      let q : Produces l.ring (found_room a) = at l (found_room a) e h.producer in
      record {
        ring = record { small = h.ring.small; head_in = h.ring.head_in; tail_in = h.ring.tail_in };
        producer = (q.lower, rw (==_refl l.ring.head) refl);
        consumer = write-Consumes l.ring a l.consumer h.consumer;
        order = h.order ∙ ap (λ q. l.received ++ q) (sym (queue-write_entry l.ring h.ring a));
      }
  Step-Fifo {l = l} (move_head a e) h =
      let (f, v) = at l (wrote a) e h.producer in
      record {
        ring = publish-IsRing l.ring h.ring;
        producer = record { lower = tt };
        consumer = publish-Consumes l.ring l.consumer f h.consumer;
        order =
            ap (λ xs. xs ++ (a ∷ [])) h.order
            ∙ append_assoc l.received (queue l.ring) (a ∷ [])
            ∙ ap (λ x. l.received ++ (queue l.ring ++ (x ∷ []))) (sym v)
            ∙ ap (λ q. l.received ++ q) (sym (queue-publish l.ring h.ring f));
      }
  Step-Fifo (test_entry e some) h = record {
    ring = h.ring;
    producer = h.producer;
    consumer = record { lower = some };
    order = h.order;
  }
  Step-Fifo {l = l} (read e) h =
      let q : Consumes l.ring found_entry = by l found_entry e h.consumer in
      record { ring = h.ring; producer = h.producer; consumer = (q.lower, refl); order = h.order }
  Step-Fifo {l = l} (move_tail a e) h =
      let (f, v) = by l (took a) e h.consumer in
      record {
        ring = advance-IsRing l.ring h.ring;
        producer = advance-Produces l.ring l.producer h.ring f h.producer;
        consumer = record { lower = tt };
        order =
            h.order
            ∙ ap (λ q. l.received ++ q) (queue-advance l.ring h.ring f)
            ∙ ap (λ x. l.received ++ (x ∷ queue (advance l.ring))) v
            ∙ sym (append_assoc l.received (a ∷ []) (queue (advance l.ring)));
      }

  -- A ring that is set up, and two sides that have not begun.
  abbrev pub new_link : ℕ → ℕ → Ring A → Link A
  new_link magic size r = record {
    ring = reset magic size r;
    producer = Producer.idle;
    consumer = Consumer.idle;
    sent = [];
    received = [];
  }

  new_link-Fifo :
      (magic size : ℕ) (r : Ring A) → 0 < size → size < 2 ^ 32 → Fifo (new_link magic size r)
  unfolding run
  new_link-Fifo magic size r pos small = record {
    ring = record { small = small; head_in = pos; tail_in = pos };
    producer = record { lower = tt };
    consumer = record { lower = tt };
    order = refl;
  }

  Reach-Fifo : {l m : Link A} → Reach l m → Fifo l → Fifo m
  Reach-Fifo start h = h
  Reach-Fifo (later r st) h = Step-Fifo st (Reach-Fifo r h)

  Reach-size : {l m : Link A} → Reach l m → m.ring.size ≡ l.ring.size
  Reach-size start = refl
  Reach-size (later r st) = Step-size st ∙ Reach-size r
    where
      Step-size : {m n : Link A} → Step m n → n.ring.size ≡ m.ring.size
      Step-size (test_room a e room) = refl
      Step-size (write a e) = refl
      Step-size (move_head a e) = refl
      Step-size (test_entry e some) = refl
      Step-size (read e) = refl
      Step-size (move_tail a e) = refl

  -- A producer and a consumer start on a ring that is set up with a size above 0 that fits 32 bits, and
  -- take their steps in any order: at every moment the entries that are sent are those that are
  -- received, in order, followed by those in the queue, of which there are fewer than the size.
  pub Reach-order :
      (magic size : ℕ) (r : Ring A) (m : Link A)
      → 0 < size
      → size < 2 ^ 32
      → Reach (new_link magic size r) m
      → (m.sent ≡ m.received ++ queue m.ring) × (length (queue m.ring) < size)
  Reach-order magic size r m pos small q =
      let h = Reach-Fifo q (new_link-Fifo magic size r pos small) in
      (h.order, omega (arith, length-queue m.ring h.ring, Reach-size q))
