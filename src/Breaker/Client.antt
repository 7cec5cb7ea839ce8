-- ===== src/Breaker/Client.antt =====
-- The Redis client that the breaker calls, which is not code of this program: the commands it
-- uses, and what Redis documents of them. A command that raises returns `none`.
use reliastra_backend.Prelude.{ℕ, ◌+◌, ◌*◌, ◌<◌, ◌≡◌, ◌≢◌, Bool, true, false, Option, some}

-- `_empty_state`, and the document that json.dumps and json.loads carry: "state" is "open" or
-- "closed"
pub record Circuit : Type 0 where
  pub is_open : Bool
  pub failures : ℕ
  pub successes : ℕ
  pub opened_at : Option ℕ

-- What is stored under a key: a state document, the "1" of a lease, or text that is no document.
pub data Stored : Type 0 where
  document : Circuit → Stored
  lease : Stored
  garbage : Stored

-- `_state_key` and `_probe_key` of a dependency
pub data Key : Type 0 where
  state_key : ℕ → Key
  probe_key : ℕ → Key

-- GET, SET, SET NX EX at a time with a life in seconds, and DEL, on a server's state.
pub record Redis (Server : Type 0) : Type 0 where
  pub get : Server → Key → Option (Option Stored)
  pub set : Server → Key → Stored → Option Server
  pub set_nx_ex : Server → ℕ → Key → ℕ → Option (Bool × Server)
  pub delete : Server → Key → Option Server

-- A server that answers every command: SET stores a document under its key and under no other,
-- and the commands on a lease leave the state documents alone. A lease that was given is not given
-- again before its life is over, as long as the key is not deleted.
pub record Answers (Server : Type 0) (redis : Redis Server) : Type 0 where
  pub sets : (s : Server) (k : Key) (v : Stored) → (s' : Server) × (redis.set s k v ≡ some s')
  pub deletes : (s : Server) (k : Key) → (s' : Server) × (redis.delete s k ≡ some s')
  pub answers :
      (s : Server) (now : ℕ) (k : Key) (ex : ℕ)
      → (b : Bool) × (s' : Server) × (redis.set_nx_ex s now k ex ≡ some (b, s'))
  pub get-set :
      (s s' : Server) (d : ℕ) (v : Stored)
      → redis.set s (state_key d) v ≡ some s'
      → redis.get s' (state_key d) ≡ some (some v)
  pub get-set_other :
      (s s' : Server) (d e : ℕ) (v : Stored)
      → d ≢ e
      → redis.set s (state_key d) v ≡ some s'
      → redis.get s' (state_key e) ≡ redis.get s (state_key e)
  pub get-delete :
      (s s' : Server) (d e : ℕ)
      → redis.delete s (probe_key d) ≡ some s'
      → redis.get s' (state_key e) ≡ redis.get s (state_key e)
  pub get-set_nx_ex :
      (s s' : Server) (b : Bool) (now d e ex : ℕ)
      → redis.set_nx_ex s now (probe_key d) ex ≡ some (b, s')
      → redis.get s' (state_key e) ≡ redis.get s (state_key e)
  pub holds :
      (s s' : Server) (now later d ex : ℕ)
      → redis.set_nx_ex s now (probe_key d) ex ≡ some (true, s')
      → later < now + ex * 1000
      → redis.set_nx_ex s' later (probe_key d) ex ≡ some (false, s')
