-- ===== src/Pool/Owners.antt =====
-- Which thread has which connection, whatever the threads do one after another.
use elite_reasoning_mcp.Prelude.{
  ℕ, suc, ◌<◌, ◌≡◌, refl, sym, ap, ◌∙◌, Bool, true, false, Option, none, some, ◌⊎◌, inl, inr, List,
  [], ◌∷◌, ◌++◌, arith, any, ◌==◌, ==_iff, ==_refl, Bool-cases, Option-cases,
}
use elite_reasoning_mcp.Pool.{
  Connections, Answers, set_local, remove_first, discard, open_connection, get_connection,
  close_thread, close_all, end_thread, no_connections,
}

-- One method on one thread, or the end of a thread.
pub data Step (p : Connections) : Connections → Type 0 where
  get : (thread : ℕ) (a : Answers) → Step p (get_connection thread a p).1
  close : (thread : ℕ) → Step p (close_thread thread p)
  close_every : Step p (close_all p)
  thread_ends : (thread : ℕ) → Step p (end_thread thread p)

pub data Reach : Connections → Type 0 where
  start : Reach no_connections
  then_step : {p q : Connections} → Reach p → Step p q → Reach q

abbrev pub has : ℕ → List ℕ → Bool
has c ds = any (λ d. d == c) ds

pub record IsOwned (p : Connections) : Type 0 where
  pub unshared : (t u c : ℕ) → p.local t ≡ some c → p.local u ≡ some c → t ≡ u
  pub tracked : (t c : ℕ) → p.local t ≡ some c → has c p.all_connections ≡ true
  pub old : (t c : ℕ) → p.local t ≡ some c → c < p.next

set_local-cases :
    (thread : ℕ) (conn : Option ℕ) (local : ℕ → Option ℕ) (t c : ℕ)
    → set_local thread conn local t ≡ some c
    → ((t ≡ thread) × (conn ≡ some c)) ⊎ (local t ≡ some c)
set_local-cases thread conn local t c h = elim (Bool-cases (t == thread)) [
  | inl e ↦ inl ((==_iff t thread).0 e, rw e at h)
  | inr e ↦ inr (rw e at h)
]

-- the same, when the entry is cleared
cleared :
    (thread : ℕ) (local : ℕ → Option ℕ) (t c : ℕ)
    → set_local thread none local t ≡ some c
    → (local t ≡ some c) × ((t == thread) ≡ false)
cleared thread local t c h = elim (Bool-cases (t == thread)) [
  | inl e ↦ let g : none ≡ some c = rw e at h in absurd (cc g)
  | inr e ↦ (rw e at h, e)
]

has-remove_first :
    (c d : ℕ) (ds : List ℕ) → (c == d) ≡ false → has c ds ≡ true → has c (remove_first d ds) ≡ true
unfolding remove_first
has-remove_first c d [] e h = h
has-remove_first c d (x ∷ ds) e h = elim (Bool-cases (x == d)) [
  | inl k ↦ rw k (elim (Bool-cases (x == c)) [
    | inl m ↦
        let same = (==_iff c d).1 (sym ((==_iff x c).0 m) ∙ (==_iff x d).0 k) in
        absurd (ground (arith, e, same))
    | inr m ↦ rw m at h
  ])
  | inr k ↦ rw k (elim (Bool-cases (x == c)) [
    | inl m ↦ rw m refl
    | inr m ↦ rw m (has-remove_first c d ds e (rw m at h))
  ])
]

has-append : (c : ℕ) (ds es : List ℕ) → has c ds ≡ true → has c (ds ++ es) ≡ true
has-append c [] es h = absurd (ground (arith, h))
has-append c (x ∷ ds) es h = elim (Bool-cases (x == c)) [
  | inl m ↦ rw m refl
  | inr m ↦ rw m (has-append c ds es (rw m at h))
]

has-append_last : (c : ℕ) (ds : List ℕ) → has c (ds ++ c ∷ []) ≡ true
has-append_last c [] = rw (==_refl c) refl
has-append_last c (x ∷ ds) = elim (Bool-cases (x == c)) [
  | inl m ↦ rw m refl
  | inr m ↦ rw m (has-append_last c ds)
]

cleared-IsOwned : (thread : ℕ) (p : Connections) → IsOwned p → IsOwned (end_thread thread p)
unfolding end_thread
cleared-IsOwned thread p o = record {
  unshared = λ t u c h k.
      o.unshared t u c (cleared thread p.local t c h).0 (cleared thread p.local u c k).0;
  tracked = λ t c h. o.tracked t c (cleared thread p.local t c h).0;
  old = λ t c h. o.old t c (cleared thread p.local t c h).0;
}

discard-IsOwned :
    (thread conn : ℕ) (p : Connections)
    → p.local thread ≡ some conn
    → IsOwned p
    → IsOwned (discard thread conn p)
unfolding discard
discard-IsOwned thread conn p owner o = record {
  unshared = λ t u c h k.
      o.unshared t u c (cleared thread p.local t c h).0 (cleared thread p.local u c k).0;
  tracked = λ t c h.
      let (g, away) = cleared thread p.local t c h in
      has-remove_first c conn p.all_connections (other t c g away) (o.tracked t c g);
  old = λ t c h. o.old t c (cleared thread p.local t c h).0;
}
  where
    other : (t c : ℕ) → p.local t ≡ some c → (t == thread) ≡ false → (c == conn) ≡ false
    other t c g away = elim (Bool-cases (c == conn)) [
      | inl e ↦
          let h : p.local t ≡ some conn = g ∙ ap some ((==_iff c conn).0 e) in
          let same = (==_iff t thread).1 (o.unshared t thread conn h owner) in
          absurd (ground (arith, away, same))
      | inr e ↦ e
    ]

added : ℕ → Connections → Connections
added thread p = record {
  local = set_local thread (some p.next) p.local;
  all_connections = p.all_connections ++ p.next ∷ [];
  next = suc p.next;
}

fresh : (n c : ℕ) → some n ≡ some c → n ≡ c
fresh n c h = cc h

added-IsOwned : (thread : ℕ) (p : Connections) → IsOwned p → IsOwned (added thread p)
unfolding added
added-IsOwned thread p o = record {
  unshared = λ t u c h k. elim (entry t c h) [
    | inl (et, ec) ↦ elim (entry u c k) [
      | inl (eu, eu') ↦ et ∙ sym eu
      | inr k' ↦ absurd (omega (arith, fresh p.next c ec, o.old u c k'))
    ]
    | inr h' ↦ elim (entry u c k) [
      | inl (eu, ec) ↦ absurd (omega (arith, fresh p.next c ec, o.old t c h'))
      | inr k' ↦ o.unshared t u c h' k'
    ]
  ];
  tracked = λ t c h. elim (entry t c h) [
    | inl (et, ec) ↦ rw (sym (fresh p.next c ec)) (has-append_last p.next p.all_connections)
    | inr h' ↦ has-append c p.all_connections (p.next ∷ []) (o.tracked t c h')
  ];
  old = λ t c h. elim (entry t c h) [
    | inl (et, ec) ↦ omega (arith, fresh p.next c ec)
    | inr h' ↦ omega (arith, o.old t c h')
  ];
}
  where
    entry :
        (t c : ℕ)
        → set_local thread (some p.next) p.local t ≡ some c
        → ((t ≡ thread) × (some p.next ≡ some c)) ⊎ (p.local t ≡ some c)
    entry t c h = set_local-cases thread (some p.next) p.local t c h

open_connection-IsOwned :
    (thread : ℕ) (a : Answers) (p : Connections)
    → IsOwned p
    → IsOwned (open_connection thread a p).1
unfolding open_connection added
open_connection-IsOwned thread a p o = elim (Bool-cases a.connected) [
  | inl e ↦ elim (Bool-cases a.configured) [
    | inl f ↦ rw (e, f) (added-IsOwned thread p o)
    | inr f ↦
        rw (e, f)
          (record {
            unshared = o.unshared;
            tracked = o.tracked;
            old = λ t c h. omega (arith, o.old t c h);
          })
  ]
  | inr e ↦ rw e o
]

get_connection-IsOwned :
    (thread : ℕ) (a : Answers) (p : Connections) → IsOwned p → IsOwned (get_connection thread a p).1
unfolding get_connection
get_connection-IsOwned thread a p o = elim (Option-cases (p.local thread)) [
  | inl e ↦ rw (get_connection, e) (open_connection-IsOwned thread a p o)
  | inr (conn, e) ↦
      rw (get_connection, e)
        (elim (Bool-cases a.alive) [
          | inl k ↦ rw k o
          | inr k ↦ rw k (
              open_connection-IsOwned thread a (discard thread conn p)
                (discard-IsOwned thread conn p e o))
        ])
]

close_thread-IsOwned : (thread : ℕ) (p : Connections) → IsOwned p → IsOwned (close_thread thread p)
unfolding close_thread
close_thread-IsOwned thread p o = elim (Option-cases (p.local thread)) [
  | inl e ↦ rw (close_thread, e) o
  | inr (conn, e) ↦ rw (close_thread, e) (discard-IsOwned thread conn p e o)
]

nobody-IsOwned : (p : Connections) → ((t : ℕ) → p.local t ≡ none) → IsOwned p
nobody-IsOwned p h = record {
  unshared = λ t u c k l. absurd (cc (h t, k));
  tracked = λ t c k. absurd (cc (h t, k));
  old = λ t c k. absurd (cc (h t, k));
}

Step-IsOwned : {p q : Connections} → Step p q → IsOwned p → IsOwned q
unfolding close_all
Step-IsOwned {p} (get thread a) o = get_connection-IsOwned thread a p o
Step-IsOwned {p} (close thread) o = close_thread-IsOwned thread p o
Step-IsOwned {p} close_every o = nobody-IsOwned (close_all p) (λ t. refl)
Step-IsOwned {p} (thread_ends thread) o = cleared-IsOwned thread p o

-- Whatever the threads do one after another, and whatever SQLite answers: no connection is the one of
-- two threads; each thread's connection is on the list, so that close_all reaches it; and a new
-- connection is none of those that a thread has.
pub Reach-IsOwned : {p : Connections} → Reach p → IsOwned p
Reach-IsOwned start = nobody-IsOwned no_connections (λ t. refl)
Reach-IsOwned (then_step r s) = Step-IsOwned s (Reach-IsOwned r)
