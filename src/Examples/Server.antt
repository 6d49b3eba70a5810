-- ===== src/Examples/Server.antt =====
-- A Redis, a database and a Docker in memory, whose commands succeed, with the laws that they keep.
use nimbus_run_a_self_hosted.Prelude.{
  String, ◌≡◌, refl, sym, inl, inr, Bool-cases, Bool, true, false, ◌&&◌, Option, none, some, List,
  [], ◌∷◌, ◌++◌, str_eq, if◌then◌else◌, is_some, arith, eq_iff,
}
use mathlib.Core.List.{append-nil}
use nimbus_run_a_self_hosted.Prelude.Exec.{errorf, ok, err}
use nimbus_run_a_self_hosted.Platform.Redis.{Redis, IsRedis, Message, StreamReply}

pub record Server : Type 0 where
  pub values : String → Option String
  pub streams : String → List Message
  pub groups : String → String → Bool
  pub acked : String → String → String → Bool

abbrev pub blank_server : Server
blank_server = record {
  values = λ k. none;
  streams = λ k. [];
  groups = λ k g. false;
  acked = λ k g id. false;
}

abbrev pub put : String → Option String → Server → Server
put k v s = record s { values = λ j. if str_eq k j then v else s.values j }

abbrev pub append : String → Message → Server → Server
append k m s = record s { streams = λ j. if str_eq k j then s.streams j ++ m ∷ [] else s.streams j }

abbrev pub add_group : String → String → Server → Server
add_group k g s = record s {
  groups = λ j h. if str_eq k j then (if str_eq g h then true else s.groups j h) else s.groups j h;
}

abbrev pub acknowledge : String → String → String → Server → Server
acknowledge k g id s = record s {
  acked = λ j h i. if str_eq k j && (str_eq g h && str_eq id i) then true else s.acked j h i;
}

abbrev pub reply_of : String → Server → Option (List StreamReply)
reply_of k s = some (record { stream = k; messages = s.streams k } ∷ [])

abbrev pub memory : Redis
memory = record {
  State = Server;
  get = λ k s. (ok (s.values k), s);
  set = λ k v ttl s. (ok tt, put k (some v) s);
  set_nx = λ k v ttl s. if is_some (s.values k) then (ok false, s) else (ok true, put k (some v) s);
  del = λ k s. (ok tt, put k none s);
  eval = λ f s. (ok (f s).0, (f s).1);
  call_get = λ k s. s.values k;
  call_del = λ k s. (1, put k none s);
  x_add = λ k values s. (ok "1-0", append k (record { id = "1-0"; values = values }) s);
  x_group_create = λ k g start s. (ok tt, add_group k g s);
  x_read_group = λ g consumer k count s.
      if s.groups k g then (ok (reply_of k s), s) else (err (errorf "NOGROUP"), s);
  x_read = λ k last count s. (ok (reply_of k s), s);
  x_range = λ k first last s. (ok (s.streams k), s);
  x_ack = λ k g id s. (ok tt, acknowledge k g id s);
  x_del = λ k id s. (ok tt, s);
  x_len = λ k s. (ok 0, s);
  x_pending = λ k g s. (ok 0, s);
  format_int = λ n. "0";
  entries = λ s k. s.streams k;
  has_group = λ s k g. s.groups k g;
  is_acked = λ s k g id. s.acked k g id;
}

append_grows :
    (s : Server) (k : String) (m : Message) (other : String)
    → (more : List Message) × ((append k m s).streams other ≡ s.streams other ++ more)
append_grows s k m other = elim (Bool-cases (str_eq k other)) [
  | inl same ↦ (m ∷ [], rw same refl)
  | inr apart ↦ ([], rw apart (sym (append-nil (s.streams other))))
]

pub memory-IsRedis : IsRedis memory
memory-IsRedis = record {
  get_ok = λ s k v e. ground (arith, e);
  set_ok = λ s k v ttl j e. refl;
  set_entries = λ s k v ttl stream apart. refl;
  set_absent = λ s k v ttl absent. absent;
  set_nx_ok = λ s k v ttl b e. ground (arith, e);
  set_nx_value = λ s k v ttl b j e. ground (arith, e);
  set_nx_taken = λ s k v ttl held j busy. ground (arith, busy);
  eval_ok = λ s f n e. refl;
  call_del_value = λ k j s. refl;
  x_add_ok = λ s k values id e. ground (arith, e, eq_iff k k);
  x_add_other = λ s k values id other e apart. ground (arith, eq_iff k other);
  x_ack_ok = λ s k g id e. ground (arith, eq_iff k k, eq_iff g g, eq_iff id id);
  x_add_acked = λ s k values other g id. refl;
  x_add_value = λ s k values j. refl;
  x_ack_entries = λ s k g id other. refl;
  x_read_group_ok = λ s g consumer k count reply e. ground (arith, e);
  x_read_group_entries = λ s g consumer k count other. ground arith;
  x_group_create_other = λ s k g start other name apart. ground (arith, eq_iff k other);
  x_group_create_name = λ s k g start other name apart. ground (arith, eq_iff g name);
  x_group_create_entries = λ s k g start other. refl;
  x_add_group = λ s k values other g. refl;
  x_ack_group = λ s k name id other g. refl;
  x_read_group_group = λ s name consumer k count other g. ground arith;
  x_add_grows = λ s k values other. append_grows s k (record { id = "1-0"; values = values }) other;
  get_entries = λ s k stream. refl;
  get_group = λ s k stream group. refl;
  set_group = λ s k v ttl stream group without. without;
  set_nx_entries = λ s k v ttl stream. ground arith;
  set_nx_group = λ s k v ttl stream group. ground arith;
  call_del_entries = λ k s stream apart. refl;
  call_del_group = λ k s stream group without. without;
  eval_whole = λ s f. inl refl;
}
