-- ===== src/Master.antt =====
-- endpoint/endpoint_manager.py: class EndpointManager, the multi-user endpoint. It reads commands from
-- a queue, finds the local user that a command may run as, and forks a user endpoint for it. What
-- the forked child does is left out: `forked` lists what each child was forked for. The operating
-- system, the identity mapper and the times are what `World` gives. The arguments that a record of a
-- child keeps are for log messages; here they are shortened.
pub mod Children
pub mod Commands
mod Safe
mod Handling
mod Reaping
mod Run
mod Survival
mod Tests
use Prim.Native.String.{◌++◌ as text_append}
use func_x.Prelude.Table.{Table, put_at}
use func_x.Prelude.{
  ℕ, suc, ◌+◌, String, Bool, true, false, Option, none, some, List, [], ◌∷◌, ◌++◌, ltb, leb, ◌==◌,
  ◌&&◌, ◌||◌, not, if◌then◌else◌,
}
use func_x.Prelude.Dict.{◌=?◌}
use func_x.Prelude.Decimal.{str}
use func_x.Prelude.Python.{
  os_error, invalid_command_error, invalid_user_error, attribute_error, Exc, Result, return, raise,
  Action, get, modify, pure, throw, lift, or_raise, ◌>>=◌, ◌>>◌,
}

-- An entry of the user database.
pub record Passwd : Type 0 where
  pub pw_name : String
  pub pw_uid : ℕ
  pub pw_gid : ℕ

pub record UserEndpointRecord : Type 0 where
  pub ep_name : String
  pub local_user_info : Option Passwd
  pub arguments : String

-- The keyword arguments of a command; `name` is empty where it is missing, `amqp_creds` and
-- `user_opts` are passed on.
pub record Kwargs : Type 0 where
  pub name : String
  pub amqp_creds : String
  pub user_opts : String

pub record StartArgs : Type 0 where
  pub user_record : Passwd
  pub args : List String
  pub kwargs : Kwargs

-- What a message may hold for `kwargs`: a dict, which a missing key gives too; a value that is false
-- and no dict, such as null; another value, such as a text.
pub data Arguments : Type 0 where
  dict : Kwargs → Arguments
  falsy truthy : Arguments

-- What a child is forked for: to become a user endpoint, or to tell of a failure.
pub data Forked : Type 0 where
  starts_endpoint : (user_record : Passwd) (args : List String) (kwargs : Kwargs) → Forked
  sends_notice : (kwargs : Arguments) → Forked

-- What the identity mapper answers.
pub data Mapped : Type 0 where
  maps_to : Option String → Mapped
  lookup_fails mapping_fails : Mapped

-- `fork` is asked by the number of the attempt, `has_date` is whether `datetime.fromtimestamp` takes a
-- timestamp, as it raises ValueError for one out of its range. Who a set of identities maps to and what the user
-- database says may change with the time.
pub record World : Type 0 where
  pub fork : ℕ → Option ℕ
  pub getpwnam : ℕ → String → Option Passwd
  pub getpwuid : ℕ → ℕ → Option Passwd
  pub identity_mapper : Option (ℕ → Option (List String) → Mapped)
  pub parent_identities : List String
  pub mu_user : Passwd
  pub uid : ℕ
  pub allow_same_user : Bool
  pub grace_period : ℕ
  pub heartbeat_period : ℕ
  pub has_date : ℕ → Bool

-- The cached arguments come with the time at which they were cached.
pub record Master : Type 0 where
  pub children : Table UserEndpointRecord
  pub cached_cmd_start_args : Table (ℕ × StartArgs)
  pub time_to_stop : Bool
  pub wait_for_child : Bool
  pub last_heartbeat : ℕ
  pub heartbeats : ℕ
  pub attempts : ℕ
  pub forked : List Forked

unfoldable pub init_master : Master
init_master = record {
  children = [];
  cached_cmd_start_args = [];
  time_to_stop = false;
  wait_for_child = false;
  last_heartbeat = 0;
  heartbeats = 0;
  attempts = 0;
  forked = [];
}

-- The first child with the name of an endpoint, if any.
unfoldable pub find_running : String → Table UserEndpointRecord → Option ℕ
find_running ep_name [] = none
find_running ep_name ((p, r) ∷ d) = if r.ep_name =? ep_name then some p else find_running ep_name d

unfoldable pub proc_args : String → List String → List String
proc_args ep_name args = "globus-compute-endpoint" ∷ "start" ∷ ep_name ∷ "--die-with-parent" ∷ args

-- `" ".join(words)`
unfoldable pub join_words : List String → String
join_words [] = ""
join_words (x ∷ []) = x
join_words (x ∷ y ∷ xs) = text_append x (text_append " " (join_words (y ∷ xs)))

module _ (w : World) where
  -- `os.fork()` in the parent, which then notes the child; what it is for is logged at once.
  unfoldable pub fork_child : (ℕ → Result UserEndpointRecord) → Forked → Action Master (Unit {0})
  fork_child record_of purpose = do
    s ← get
    modify (λ s. record s { attempts = suc s.attempts })
    pid ← lift (or_raise os_error (w.fork s.attempts))
    modify (λ s. record s { forked = s.forked ++ purpose ∷ [] })
    r ← lift (record_of pid)
    modify (λ s. record s { children = put_at pid r s.children })

  -- The name of the record is the pid. For its text the arguments are asked for the endpoint's name.
  unfoldable pub notice_record : Arguments → ℕ → Result UserEndpointRecord
  notice_record (dict kwargs) pid = return (record {
    ep_name = str pid;
    local_user_info = none;
    arguments =
        text_append "Temporary process to send failure message, user endpoint name: " kwargs.name;
  })
  notice_record _ pid = raise attribute_error

  unfoldable pub send_failure_notice : Arguments → Action Master (Unit {0})
  unfolding fork_child notice_record
  send_failure_notice kwargs = fork_child (notice_record kwargs) (sends_notice kwargs)

  -- Whether a user may not have endpoints, as it is the one that the manager runs as.
  unfoldable pub is_forbidden : Passwd → Bool
  is_forbidden user =
      not w.allow_same_user && ((user.pw_name =? w.mu_user.pw_name) || (user.pw_uid == w.uid))

  abbrev pub endpoint_record : Passwd → List String → Kwargs → UserEndpointRecord
  endpoint_record user args kwargs = record {
    ep_name = kwargs.name;
    local_user_info = some user;
    arguments = join_words (proc_args kwargs.name args);
  }

  -- The part of `cmd_start_endpoint` that is for a name that no child has.
  unfoldable pub start_new : Passwd → List String → Kwargs → Action Master (Unit {0})
  unfolding is_forbidden fork_child
  start_new user args kwargs =
      if is_forbidden user
      then throw invalid_user_error
      else fork_child (λ pid. return (endpoint_record user args kwargs))
          (starts_endpoint user args kwargs)

  -- A child that has the name already is left; the arguments are kept for when it stops.
  unfoldable pub start_endpoint : Passwd → List String → Kwargs → ℕ → Action Master (Unit {0})
  unfolding start_new
  start_endpoint user args kwargs now s =
      if kwargs.name =? ""
      then (raise invalid_command_error, s)
      else elim (find_running kwargs.name s.children) [
        | none ↦ start_new user args kwargs s
        | some pid ↦ (
          return tt,
          record s {
            cached_cmd_start_args =
                put_at pid (now, record { user_record = user; args = args; kwargs = kwargs })
                  s.cached_cmd_start_args;
          },
        )
      ]

  -- `if not kwargs: kwargs = {}`, and `kwargs.get`.
  unfoldable pub cmd_start_endpoint :
      Passwd → List String → Arguments → ℕ → Action Master (Unit {0})
  unfolding start_endpoint
  cmd_start_endpoint user args (dict kwargs) now = start_endpoint user args kwargs now
  cmd_start_endpoint user args falsy now = throw invalid_command_error
  cmd_start_endpoint user args truthy now = throw attribute_error
