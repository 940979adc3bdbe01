-- ===== src/Bus/Offers.antt =====
-- The attempt to enqueue in `Publish` (pkg/queue/lockfree.go) on a queue that holds messages.
use portask.Prelude.{ℕ, ◌+◌, ◌^◌, ◌<◌, ◌≡◌, ◌≢◌, refl, inl, inr, some, List, [], ◌∷◌, ◌++◌, length}
use portask.Message.{PortaskMessage}
use portask.Queue.{drop_oldest, publish, count_drop}
use portask.Queue.Repr.{Holds}
use portask.Queue.Nodes.{publish-Holds}
use portask.Queue.Fifo.{policy_cases, enqueue-room, enqueue-full, count_drop-Holds}
use portask.Bus.{Queue, Offered, accepted, refused, after_enqueue, offer}

-- What an offer does to a queue that holds `xs`, with the result `o` and `ys` afterwards.
pub record Offers (m : PortaskMessage) (q : Queue) (k : ℕ) (o : Offered) (ys : List PortaskMessage)
    : Type 0 where
  pub next : Queue
  pub replies : offer m q ≡ some (o, next)
  pub holds : Holds next k ys
  pub policy : next.drop_policy ≡ q.drop_policy

module _ {q : Queue} {k : ℕ} {xs : List PortaskMessage} (h : Holds q k xs)
    (m : PortaskMessage) where
  -- With room the message is appended.
  pub offer_room :
      length xs < 2 ^ k → q.enqueue_pos + 1 < 2 ^ 62 → Offers m q k accepted (xs ++ m ∷ [])
  unfolding offer after_enqueue publish count_drop
  offer_room room early = record {
    next = publish q q.enqueue_pos m;
    replies = rw (enqueue-room h room m) refl;
    holds = publish-Holds h m room early;
    policy = refl;
  }

  pub offer_full : length xs ≡ 2 ^ k → q.drop_policy ≢ drop_oldest → Offers m q k refused xs
  unfolding offer after_enqueue publish count_drop
  offer_full full pol = record {
    next = count_drop q;
    replies =
        rw (enqueue-full h full pol m)
          (elim (policy_cases q.drop_policy pol) [ inl e ↦ simp e | inr e ↦ simp e ]);
    holds = count_drop-Holds h;
    policy = refl;
  }
