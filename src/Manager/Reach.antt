-- ===== src/Manager/Reach.antt =====
-- internal/connectip/session/manager.go, Close and Replace in several goroutines: a step is what runs
-- between two points where another goroutine can come in, and steps of all sessions interleave.
use jiejie_masque_unified.Base.{
  ℕ, ◌≡◌, refl, ap, sym, subst, ◌∙◌, inl, inr, true, false, not, ◌&&◌, Option, List, All, ◌==◌,
  nat_eq, nat_beq_iff, beq-cases, beq_refl, Bool-cases, if◌then◌else◌, arith,
}
use jiejie_masque_unified.Net.{is_valid}
use jiejie_masque_unified.Session.{Session}
use jiejie_masque_unified.Manager.{
  Heap, World, update, new_manager, install, register, evict_session, remove_if_current,
  shut_connection, notify, close, ok, err,
}
use jiejie_masque_unified.Manager.Invariant.{
  IsConsistent, rivals, register_cases, new_manager-IsConsistent, register-IsConsistent,
}
use jiejie_masque_unified.Manager.Closing.{
  reheap-IsConsistent, update-same, evict_session-IsConsistent, shut_connection-IsConsistent,
  notify-IsConsistent,
}

-- How far Close of a session has come: not begun, its connection shut, marked as removed, past
-- RemoveIfCurrent, or done.
pub data Phase : Type 0 where
  running shut marked evicted notified : Phase

pub record State : Type 0 where
  pub world : World
  pub phase : ℕ → Phase

abbrev pub enter : ℕ → Phase → (ℕ → Phase) → ℕ → Phase
enter s x phase t = if s == t then x else phase t

abbrev pub mark_removed : ℕ → World → World
mark_removed s w = record w { heap = update w.heap s (record (w.heap s) { removed = true }) }

pub data Step : State → State → Type 0 where
  -- The part of Replace under the lock, for a session with valid addresses.
  registers :
      (v : State) (s : ℕ) (old : List ℕ) (w : World)
      → All (λ a. is_valid a ≡ true) (v.world.heap s).client_ips
      → register s v.world ≡ ok (old, w)
      → Step v (record v { world = w })
  -- The first call of Close gets past the Once.
  shuts :
      (v : State) (s : ℕ)
      → v.phase s ≡ running
      → Step v (record { world = shut_connection s v.world; phase = enter s shut v.phase })
  -- CompareAndSwap in RemoveIfCurrent succeeds.
  marks :
      (v : State) (s : ℕ)
      → v.phase s ≡ shut
      → ((v.world.heap s).manager && not (v.world.heap s).removed) ≡ true
      → Step v (record { world = mark_removed s v.world; phase = enter s marked v.phase })
  -- There is no registry, or CompareAndSwap fails.
  skips :
      (v : State) (s : ℕ)
      → v.phase s ≡ shut
      → ((v.world.heap s).manager && not (v.world.heap s).removed) ≡ false
      → Step v (record v { phase = enter s evicted v.phase })
  -- The part of RemoveIfCurrent under the lock.
  evicts :
      (v : State) (s : ℕ)
      → v.phase s ≡ marked
      → Step v (record { world = (evict_session s v.world).0; phase = enter s evicted v.phase })
  notifies :
      (v : State) (s : ℕ)
      → v.phase s ≡ evicted
      → Step v (record { world = notify s v.world; phase = enter s notified v.phase })

pub data Reach (u : State) : State → Type 0 where
  here : Reach u u
  next : {v w : State} → Reach u v → Step v w → Reach u w

-- A new registry, and any heap: its sessions are those that are ever made.
abbrev pub start : Heap → Option ℕ → State
start h limit = record {
  world = record { heap = h; registry = new_manager limit };
  phase = λ t. running;
}

-- A session whose Close has not begun has been shut and called back never, one whose Close is done
-- once.
abbrev pub IsCounted : Phase → Session → Type 0
IsCounted running x = (x.closed ≡ false) × (x.cancels ≡ 0) × (x.conn_closes ≡ 0) × (x.callbacks ≡ 0)
IsCounted shut x = (x.closed ≡ true) × (x.cancels ≡ 1) × (x.conn_closes ≡ 1) × (x.callbacks ≡ 0)
IsCounted marked x = (x.closed ≡ true) × (x.cancels ≡ 1) × (x.conn_closes ≡ 1) × (x.callbacks ≡ 0)
IsCounted evicted x = (x.closed ≡ true) × (x.cancels ≡ 1) × (x.conn_closes ≡ 1) × (x.callbacks ≡ 0)
IsCounted notified x =
    (x.closed ≡ true)
    × (x.cancels ≡ 1)
    × (x.conn_closes ≡ 1)
    × (x.callbacks ≡ (if x.on_close then 1 else 0))

pub record IsSound (v : State) : Type 0 where
  pub consistent : IsConsistent v.world
  pub counted : (t : ℕ) → IsCounted (v.phase t) (v.world.heap t)

-- One session and its phase change, from one count to another.
change_one :
    (v : State) (s : ℕ) (p : Phase) (x : Session)
    → ((t : ℕ) → IsCounted (v.phase t) (v.world.heap t))
    → IsCounted p x
    → (t : ℕ) → IsCounted (enter s p v.phase t) (update v.world.heap s x t)
change_one v s p x c h t = elim (beq-cases s t) [ inl (e, _) ↦ rw e h | inr (e, _) ↦ rw e (c t) ]

-- A registration counts nothing.
register-IsCounted :
    (v : State) (s : ℕ) (old : List ℕ) (w : World)
    → IsConsistent v.world
    → register s v.world ≡ ok (old, w)
    → (p : Phase) (t : ℕ) → IsCounted p (v.world.heap t)
    → IsCounted p (w.heap t)
unfolding install
register-IsCounted v s old w c e p t h = elim (register_cases v.world s c.tables) [
  | inl (f, _, _) ↦ subst (λ x. IsCounted p (x.heap t)) (same f) (kept p h)
  | inr (inl (ip, f, _, _)) ↦ absurd (ground arith)
  | inr (inr (f, _, _)) ↦ absurd (ground arith)
]
  where
    after : World
    after = install s (rivals v.world s) v.world

    same : register s v.world ≡ ok (rivals v.world s, after) → after ≡ w
    same f = ap (λ r. elim r [ ok q ↦ q.1 | err x ↦ after ]) (sym f ∙ e)

    kept : (q : Phase) → IsCounted q (v.world.heap t) → IsCounted q (after.heap t)
    kept running h = ground (arith, nat_beq_iff s t)
    kept shut h = ground (arith, nat_beq_iff s t)
    kept marked h = ground (arith, nat_beq_iff s t)
    kept evicted h = ground (arith, nat_beq_iff s t)
    kept notified h = ground (arith, nat_beq_iff s t)

-- The phase of a session is the one that a step asks for.
at_phase :
    (v : State) (s : ℕ) (p : Phase) → IsSound v → v.phase s ≡ p → IsCounted p (v.world.heap s)
at_phase v s p i e = subst (λ q. IsCounted q (v.world.heap s)) e (i.counted s)

notify-IsCounted :
    (v : State) (s : ℕ)
    → IsSound v
    → v.phase s ≡ evicted
    → (t : ℕ) → IsCounted (enter s notified v.phase t) ((notify s v.world).heap t)
unfolding notify
notify-IsCounted v s i e t = elim (Bool-cases (v.world.heap s).on_close) [
  | inl p ↦
      rw (p, notify)
        (change_one v s notified _ i.counted (ground (arith, p, at_phase v s evicted i e)) t)
  | inr p ↦
      rw (p, notify)
        (elim (beq-cases s t) [
          | inl (q, r) ↦ rw (q, ← r) (ground (arith, p, at_phase v s evicted i e))
          | inr (q, _) ↦ rw q (i.counted t)
        ])
]

Step-IsSound : {u v : State} → Step u v → IsSound u → IsSound v
unfolding shut_connection evict_session
Step-IsSound (registers v s old w valid e) i = record {
  consistent = register-IsConsistent v.world s i.consistent valid old w e;
  counted = λ t. register-IsCounted v s old w i.consistent e (v.phase t) t (i.counted t);
}
Step-IsSound (shuts v s e) i = record {
  consistent = shut_connection-IsConsistent s v.world i.consistent;
  counted = change_one v s shut _ i.counted (ground (arith, at_phase v s running i e));
}
Step-IsSound (marks v s e f) i = record {
  consistent = reheap-IsConsistent v.world _ (update-same v.world.heap s _ refl refl) i.consistent;
  counted = change_one v s marked _ i.counted (at_phase v s shut i e);
}
Step-IsSound (skips v s e f) i = record {
  consistent = i.consistent;
  counted = λ t. elim (beq-cases s t) [
    | inl (q, r) ↦ rw (q, ← r) (at_phase v s shut i e)
    | inr (q, _) ↦ rw q (i.counted t)
  ];
}
Step-IsSound (evicts v s e) i = record {
  consistent = evict_session-IsConsistent s v.world i.consistent;
  counted = λ t. elim (beq-cases s t) [
    | inl (q, r) ↦ rw (q, ← r) (at_phase v s marked i e)
    | inr (q, _) ↦ rw q (i.counted t)
  ];
}
Step-IsSound (notifies v s e) i = record {
  consistent = notify-IsConsistent s v.world i.consistent;
  counted = notify-IsCounted v s i e;
}

-- However calls of Replace and Close by several goroutines interleave, from a new registry and
-- sessions that have not been shut or called back: the registry is consistent between any two steps,
-- and the connection of a session has been closed, its context cancelled and its callback run once
-- at most, exactly once when its Close is done.
pub Reach-IsSound :
    (h : Heap) (limit : Option ℕ) (v : State)
    → ((t : ℕ) → IsCounted running (h t))
    → Reach (start h limit) v
    → IsSound v
Reach-IsSound h limit v fresh r = along r
  where
    along : {x : State} → Reach (start h limit) x → IsSound x
    along here = record { consistent = new_manager-IsConsistent h limit; counted = fresh }
    along (next q step) = Step-IsSound step (along q)

enter-same : (s : ℕ) (p : Phase) (phase : ℕ → Phase) → enter s p phase s ≡ p
enter-same s p phase = rw (beq_refl s) refl

close-marked :
    (s : ℕ) (w : World)
    → (w.heap s).closed ≡ false
    → ((w.heap s).manager && not (w.heap s).removed) ≡ true
    → close s w ≡ notify s (evict_session s (mark_removed s (shut_connection s w))).0
unfolding close remove_if_current shut_connection
close-marked s w f g = ground (arith, beq_refl s)

close-skipped :
    (s : ℕ) (w : World)
    → (w.heap s).closed ≡ false
    → ((w.heap s).manager && not (w.heap s).removed) ≡ false
    → close s w ≡ notify s (shut_connection s w)
unfolding close remove_if_current shut_connection
close-skipped s w f g = ground (arith, beq_refl s)

shut_connection-removable :
    (s : ℕ) (w : World)
    → (((shut_connection s w).heap s).manager && not ((shut_connection s w).heap s).removed)
      ≡ ((w.heap s).manager && not (w.heap s).removed)
unfolding shut_connection
shut_connection-removable s w = rw (beq_refl s) refl

module _ (v : State) (s : ℕ) where
  after_shuts : State
  after_shuts = record { world = shut_connection s v.world; phase = enter s shut v.phase }

  -- Close of an open session whose Close has not begun, as one function, is a run of the steps that
  -- can interleave with those of other goroutines.
  pub Reach-close :
      v.phase s ≡ running
      → (v.world.heap s).closed ≡ false
      → (phase : ℕ → Phase) × Reach v (record { world = close s v.world; phase = phase })
  unfolding after_shuts
  Reach-close e f = elim (Bool-cases ((v.world.heap s).manager && not (v.world.heap s).removed)) [
    | inl g ↦ (
      enter s notified (enter s evicted (enter s marked after_shuts.phase)),
      subst
          (λ x. Reach v (record {
            world = x;
            phase = enter s notified (enter s evicted (enter s marked after_shuts.phase));
          }))
          (sym (close-marked s v.world f g))
          (next
            (next
              (next (next here (shuts v s e)) (
                marks after_shuts s (enter-same s shut v.phase)
                  (shut_connection-removable s v.world ∙ g)))
              (evicts _ s (enter-same s marked after_shuts.phase)))
            (notifies _ s (enter-same s evicted (enter s marked after_shuts.phase)))),
    )
    | inr g ↦ (
      enter s notified (enter s evicted after_shuts.phase),
      subst
          (λ x.
            Reach v
              (record { world = x; phase = enter s notified (enter s evicted after_shuts.phase) }))
          (sym (close-skipped s v.world f g))
          (next
            (next (next here (shuts v s e)) (
              skips after_shuts s (enter-same s shut v.phase)
                (shut_connection-removable s v.world ∙ g)))
            (notifies _ s (enter-same s evicted after_shuts.phase))),
    )
  ]
