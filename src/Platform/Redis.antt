-- ===== src/Platform/Redis.antt =====
-- go-redis and the server behind it. A command may fail at any time, and then nothing is known of
-- the server; what it does when it reports success is stated by `IsRedis`.
use nimbus_run_a_self_hosted.Prelude.{
  ℕ, String, ◌≡◌, ◌≢◌, ◌⊎◌, Bool, true, false, ◌&&◌, not, Option, none, some, List, [], ◌∷◌, ◌++◌,
  str_eq, if◌then◌else◌, is_some,
}
use nimbus_run_a_self_hosted.Prelude.Exec.{Exec, ok}
use nimbus_run_a_self_hosted.Prelude.Int.{ℤ}

-- `redis.XMessage`
pub record Message : Type 0 where
  pub id : String
  pub values : List (String × String)

-- `redis.XStream`
pub record StreamReply : Type 0 where
  pub stream : String
  pub messages : List Message

-- `ok none` is the error `redis.Nil`. Times to live are in nanoseconds.
pub record Redis : Type 1 where
  pub State : Type 0
  pub get : String → Exec State (Option String)
  pub set : String → String → ℕ → Exec State (Unit {0})
  pub set_nx : String → String → ℕ → Exec State Bool
  pub del : String → Exec State (Unit {0})
  pub eval : (State → ℕ × State) → Exec State ℕ
  pub call_get : String → State → Option String
  pub call_del : String → State → ℕ × State
  pub x_add : String → List (String × String) → Exec State String
  pub x_group_create : String → String → String → Exec State (Unit {0})
  pub x_read_group : String → String → String → ℕ → Exec State (Option (List StreamReply))
  pub x_read : String → String → ℕ → Exec State (Option (List StreamReply))
  pub x_range : String → String → String → Exec State (List Message)
  pub x_ack : String → String → String → Exec State (Unit {0})
  pub x_del : String → String → Exec State (Unit {0})
  pub x_len : String → Exec State ℕ
  pub x_pending : String → String → Exec State ℕ
  pub format_int : ℤ → String
  pub entries : State → String → List Message
  pub has_group : State → String → String → Bool
  pub is_acked : State → String → String → String → Bool

-- What the commands document of their successes.
pub record IsRedis (r : Redis) : Type 0 where
  pub get_ok :
      (s : r.State) (k : String) (v : Option String)
      → (r.get k s).0 ≡ ok v
      → (v ≡ r.call_get k s) × ((r.get k s).1 ≡ s)
  pub set_ok :
      (s : r.State) (k v : String) (ttl : ℕ) (j : String)
      → (r.set k v ttl s).0 ≡ ok tt
      → r.call_get j (r.set k v ttl s).1 ≡ (if str_eq k j then some v else r.call_get j s)
  -- Setting a text replaces whatever else the key has; it changes no other key.
  pub set_entries :
      (s : r.State) (k v : String) (ttl : ℕ) (stream : String)
      → k ≢ stream
      → r.entries (r.set k v ttl s).1 stream ≡ r.entries s stream
  pub set_absent :
      (s : r.State) (k v : String) (ttl : ℕ)
      → r.entries s k ≡ []
      → r.entries (r.set k v ttl s).1 k ≡ []
  pub set_nx_ok :
      (s : r.State) (k v : String) (ttl : ℕ) (b : Bool)
      → (r.set_nx k v ttl s).0 ≡ ok b
      → b ≡ not (is_some (r.call_get k s))
  pub set_nx_value :
      (s : r.State) (k v : String) (ttl : ℕ) (b : Bool) (j : String)
      → (r.set_nx k v ttl s).0 ≡ ok b
      → r.call_get j (r.set_nx k v ttl s).1 ≡ (if b && str_eq k j then some v else r.call_get j s)
  -- Where the key has a text, nothing is set, whether the reply arrives or not.
  pub set_nx_taken :
      (s : r.State) (k v : String) (ttl : ℕ) (held j : String)
      → r.call_get k s ≡ some held
      → r.call_get j (r.set_nx k v ttl s).1 ≡ r.call_get j s
  pub eval_ok :
      (s : r.State) (f : r.State → ℕ × r.State) (n : ℕ)
      → (r.eval f s).0 ≡ ok n
      → (r.eval f s).1 ≡ (f s).1
  pub call_del_value :
      (k j : String) (s : r.State)
      → r.call_get j (r.call_del k s).1 ≡ (if str_eq k j then none else r.call_get j s)
  pub x_add_ok :
      (s : r.State) (key : String) (values : List (String × String)) (id : String)
      → (r.x_add key values s).0 ≡ ok id
      → r.entries (r.x_add key values s).1 key
        ≡ r.entries s key ++ record { id = id; values = values } ∷ []
  pub x_add_other :
      (s : r.State) (key : String) (values : List (String × String)) (id other : String)
      → (r.x_add key values s).0 ≡ ok id
      → key ≢ other
      → r.entries (r.x_add key values s).1 other ≡ r.entries s other
  pub x_ack_ok :
      (s : r.State) (key group id : String)
      → (r.x_ack key group id s).0 ≡ ok tt
      → r.is_acked (r.x_ack key group id s).1 key group id ≡ true
  -- Adding acknowledges nothing, and stores no text key, whether its reply arrives or not.
  pub x_add_acked :
      (s : r.State) (key : String) (values : List (String × String)) (other group id : String)
      → r.is_acked (r.x_add key values s).1 other group id ≡ r.is_acked s other group id
  pub x_add_value :
      (s : r.State) (key : String) (values : List (String × String)) (k : String)
      → r.call_get k (r.x_add key values s).1 ≡ r.call_get k s
  -- An acknowledgement, even one whose reply is lost, changes no stream.
  pub x_ack_entries :
      (s : r.State) (key group id other : String)
      → r.entries (r.x_ack key group id s).1 other ≡ r.entries s other
  -- Reading from a group that does not exist is an error.
  pub x_read_group_ok :
      (s : r.State) (group consumer key : String) (count : ℕ) (reply : Option (List StreamReply))
      → (r.x_read_group group consumer key count s).0 ≡ ok reply
      → r.has_group s key group ≡ true
  pub x_read_group_entries :
      (s : r.State) (group consumer key : String) (count : ℕ) (other : String)
      → r.entries (r.x_read_group group consumer key count s).1 other ≡ r.entries s other
  -- A group is created on the named stream and on no other.
  pub x_group_create_other :
      (s : r.State) (key group start other name : String)
      → key ≢ other
      → r.has_group (r.x_group_create key group start s).1 other name ≡ r.has_group s other name
  pub x_group_create_name :
      (s : r.State) (key group start other name : String)
      → group ≢ name
      → r.has_group (r.x_group_create key group start s).1 other name ≡ r.has_group s other name
  pub x_group_create_entries :
      (s : r.State) (key group start other : String)
      → r.entries (r.x_group_create key group start s).1 other ≡ r.entries s other
  -- No other command on streams creates or removes a group.
  pub x_add_group :
      (s : r.State) (key : String) (values : List (String × String)) (other group : String)
      → r.has_group (r.x_add key values s).1 other group ≡ r.has_group s other group
  pub x_ack_group :
      (s : r.State) (key name id other group : String)
      → r.has_group (r.x_ack key name id s).1 other group ≡ r.has_group s other group
  pub x_read_group_group :
      (s : r.State) (name consumer key : String) (count : ℕ) (other group : String)
      → r.has_group (r.x_read_group name consumer key count s).1 other group
        ≡ r.has_group s other group
  -- Adding keeps what is there, whether its reply arrives or not.
  pub x_add_grows :
      (s : r.State) (key : String) (values : List (String × String)) (other : String)
      → (more : List Message) × (r.entries (r.x_add key values s).1 other
          ≡ r.entries s other ++ more)
  -- The commands on text keys change no stream of another name and create no group; a script is run
  -- whole or not at all.
  pub get_entries :
      (s : r.State) (k stream : String) → r.entries (r.get k s).1 stream ≡ r.entries s stream
  pub get_group :
      (s : r.State) (k stream group : String)
      → r.has_group (r.get k s).1 stream group ≡ r.has_group s stream group
  pub set_group :
      (s : r.State) (k v : String) (ttl : ℕ) (stream group : String)
      → r.has_group s stream group ≡ false
      → r.has_group (r.set k v ttl s).1 stream group ≡ false
  pub set_nx_entries :
      (s : r.State) (k v : String) (ttl : ℕ) (stream : String)
      → r.entries (r.set_nx k v ttl s).1 stream ≡ r.entries s stream
  pub set_nx_group :
      (s : r.State) (k v : String) (ttl : ℕ) (stream group : String)
      → r.has_group (r.set_nx k v ttl s).1 stream group ≡ r.has_group s stream group
  pub call_del_entries :
      (k : String) (s : r.State) (stream : String)
      → k ≢ stream
      → r.entries (r.call_del k s).1 stream ≡ r.entries s stream
  pub call_del_group :
      (k : String) (s : r.State) (stream group : String)
      → r.has_group s stream group ≡ false
      → r.has_group (r.call_del k s).1 stream group ≡ false
  pub eval_whole :
      (s : r.State) (f : r.State → ℕ × r.State) → ((r.eval f s).1 ≡ (f s).1) ⊎ ((r.eval f s).1 ≡ s)
