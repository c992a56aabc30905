-- ===== src/Sandbox/RedisStore/Agreement.antt =====
-- When a Redis store and a memory store hold the same executions and the same replay records.
use Prim.Native.Nat.{◌%◌}
use code_mate.Prelude.{
  ◌==◌, ◌&&◌, ◌*◌, ltb, leb, ℕ, ◌+◌, ◌≤◌, ◌<◌, ◌≡◌, String, Bool, true, false, Option, none, some,
  [], ◌∷◌, arith, if◌then◌else◌,
}
use code_mate.Dict.{Dict, lookup, insert, keep}
use code_mate.Sandbox.ExecutionStore.{Store, Row, ExecutionResponse, is_fresh, is_running}
use code_mate.Sandbox.RedisStore.{second, int_seconds, payload, RedisStore, Hash, is_alive}

abbrev pub map_option {ℓ κ} : {A : Type ℓ} {B : Type κ} → (A → B) → Option A → Option B
map_option f none = none
map_option f (some a) = some (f a)

-- A time in whole seconds
abbrev pub is_whole : ℕ → Bool
is_whole time = time % second == 0

-- A lease ends at a whole second, and a running row has no response yet.
abbrev pub is_consistent : Row → Bool
is_consistent row =
    is_whole row.lease_until
    && (if is_running row.state then (elim row.response [ none ↦ true | some x ↦ false ]) else true)

pub whole-add : (t n : ℕ) → is_whole t ≡ true → is_whole (t + n * second) ≡ true
whole-add t n h = ground arith

pub int_seconds-add : (t n : ℕ) → int_seconds (t + n * second) ≡ int_seconds t + n
int_seconds-add t n = omega arith

pub ltb-int_seconds :
    (s t : ℕ)
    → is_whole s ≡ true
    → is_whole t ≡ true
    → ltb (int_seconds s) (int_seconds t) ≡ ltb s t
ltb-int_seconds s t h k = ground arith

pub leb-int_seconds :
    (s t : ℕ)
    → is_whole s ≡ true
    → is_whole t ≡ true
    → leb (int_seconds s) (int_seconds t) ≡ leb s t
leb-int_seconds s t h k = ground arith

-- Records of replays agree: Redis counts its times to the microsecond after the last that memory
-- accepts.
abbrev pub SameReplays : Dict (ℕ × String) → Dict (String × ℕ) → Type 0
SameReplays [] [] = Unit
SameReplays [] (x ∷ e) = ⊥
SameReplays (x ∷ d) [] = ⊥
SameReplays ((k, (last, id)) ∷ d) ((j, (id', expiry)) ∷ e) =
    (k ≡ j) × (id ≡ id') × (expiry ≡ last + 1) × SameReplays d e

module _ (dump : ExecutionResponse → String) (load : String → ExecutionResponse) where
  -- The hash that stands for a row.
  abbrev pub hash_of : Row → Hash
  hash_of row = record {
    request_hash = some row.request_hash;
    state = some row.state;
    owner = some row.owner;
    lease_until = some (int_seconds row.lease_until);
    attempt = some row.attempt;
    response = map_option dump row.response;
  }

  -- A response is read back from its text as it was.
  abbrev pub Survives : Option ExecutionResponse → Type 0
  Survives o = payload dump load (map_option dump o) ≡ o

  -- Rows agree, and none of them expires before the end of the window.
  abbrev pub SameRows : ℕ → Dict Row → Dict (Hash × ℕ) → Type 0
  SameRows end [] [] = Unit
  SameRows end [] (x ∷ e) = ⊥
  SameRows end (x ∷ d) [] = ⊥
  SameRows end ((k, row) ∷ d) ((j, (h, expiry)) ∷ e) =
      (k ≡ j)
      × (h ≡ hash_of row)
      × (is_consistent row ≡ true)
      × Survives row.response
      × (end ≤ expiry)
      × SameRows end d e

-- What a lookup finds in agreeing records of replays.
abbrev pub SameReplay : Option (ℕ × String) → Option (String × ℕ) → Type 0
SameReplay none none = Unit
SameReplay none (some y) = ⊥
SameReplay (some x) none = ⊥
SameReplay (some (last, id)) (some (id', expiry)) = (id ≡ id') × (expiry ≡ last + 1)

pub lookup-SameReplays :
    (k : String) (d : Dict (ℕ × String)) (e : Dict (String × ℕ))
    → SameReplays d e
    → SameReplay (lookup k d) (lookup k e)
unfolding lookup
lookup-SameReplays k [] [] s = tt
lookup-SameReplays k ((i, (last, id)) ∷ d) ((j, (id', expiry)) ∷ e) s =
    ground (arith, s, lookup-SameReplays k d e)
lookup-SameReplays k [] (x ∷ e) s = elim s [ ]
lookup-SameReplays k (x ∷ d) [] s = elim s [ ]

pub insert-SameReplays :
    (k : String) (last expiry : ℕ) (id : String) (d : Dict (ℕ × String)) (e : Dict (String × ℕ))
    → expiry ≡ last + 1
    → SameReplays d e
    → SameReplays (insert k (last, id) d) (insert k (id, expiry) e)
unfolding insert
insert-SameReplays k last expiry id [] [] p s = ground arith
insert-SameReplays k last expiry id ((i, (l, x)) ∷ d) ((j, (y, n)) ∷ e) p s =
    ground (arith, s, insert-SameReplays k last expiry id d e p)
insert-SameReplays k last expiry id [] (x ∷ e) p s = elim s [ ]
insert-SameReplays k last expiry id (x ∷ d) [] p s = elim s [ ]

pub keep-SameReplays :
    (now : ℕ) (d : Dict (ℕ × String)) (e : Dict (String × ℕ))
    → SameReplays d e
    → SameReplays (keep (is_fresh now) d) (keep (is_alive now) e)
unfolding keep
keep-SameReplays now [] [] s = tt
keep-SameReplays now ((i, (l, x)) ∷ d) ((j, (y, n)) ∷ e) s =
    ground (arith, s, keep-SameReplays now d e)
keep-SameReplays now [] (x ∷ e) s = elim s [ ]
keep-SameReplays now (x ∷ d) [] s = elim s [ ]

module _ (dump : ExecutionResponse → String) (load : String → ExecutionResponse) (end : ℕ) where
  -- What a lookup finds in agreeing rows.
  abbrev pub SameRow : Option Row → Option (Hash × ℕ) → Type 0
  SameRow none none = Unit
  SameRow none (some y) = ⊥
  SameRow (some x) none = ⊥
  SameRow (some row) (some (h, expiry)) =
      (h ≡ hash_of dump load row) × (is_consistent row ≡ true) × Survives dump load row.response

  pub lookup-SameRows :
      (k : String) (d : Dict Row) (e : Dict (Hash × ℕ))
      → SameRows dump load end d e
      → SameRow (lookup k d) (lookup k e)
  unfolding lookup
  lookup-SameRows k [] [] s = tt
  lookup-SameRows k ((i, row) ∷ d) ((j, (h, expiry)) ∷ e) s =
      ground (arith, s, lookup-SameRows k d e)
  lookup-SameRows k [] (x ∷ e) s = elim s [ ]
  lookup-SameRows k (x ∷ d) [] s = elim s [ ]

  pub insert-SameRows :
      (k : String) (row : Row) (h : Hash) (expiry : ℕ) (d : Dict Row) (e : Dict (Hash × ℕ))
      → h ≡ hash_of dump load row
      → is_consistent row ≡ true
      → Survives dump load row.response
      → end ≤ expiry
      → SameRows dump load end d e
      → SameRows dump load end (insert k row d) (insert k (h, expiry) e)
  unfolding insert
  insert-SameRows k row h expiry [] [] p c v l s = ground arith
  insert-SameRows k row h expiry ((i, x) ∷ d) ((j, (y, n)) ∷ e) p c v l s =
      ground (arith, s, insert-SameRows k row h expiry d e)
  insert-SameRows k row h expiry [] (x ∷ e) p c v l s = elim s [ ]
  insert-SameRows k row h expiry (x ∷ d) [] p c v l s = elim s [ ]

  -- Before the end of the window no row has expired.
  pub keep-SameRows :
      (now : ℕ) (d : Dict Row) (e : Dict (Hash × ℕ))
      → now < end
      → SameRows dump load end d e
      → SameRows dump load end d (keep (is_alive now) e)
  unfolding keep
  keep-SameRows now [] [] early s = tt
  keep-SameRows now ((i, x) ∷ d) ((j, (y, n)) ∷ e) early s =
      ground (arith, s, keep-SameRows now d e)
  keep-SameRows now [] (x ∷ e) early s = elim s [ ]
  keep-SameRows now (x ∷ d) [] early s = elim s [ ]

  -- The two stores hold the same.
  pub record SameStore (s : Store) (t : RedisStore) : Type 0 where
    pub replays : SameReplays s.replays t.replays
    pub executions : SameRows dump load end s.executions t.executions
