-- ===== src/Launcher/Environment.antt =====
-- The environment variables that a program is run with: `env` of `common/util.py`, and
-- `set_env_from_args` of `run/env_util.py`.
pub mod Restore
use Prim.Native.String.{String}
use bluefog.Common.{
  Bool, true, false, if◌then◌else◌, Option, none, some, List, [], ◌∷◌, Result, ok, raise, key_error,
}
use bluefog.Common.Names.{Names, same_name, lookup_name, assign_name, delete_name}
use bluefog.Common.Stateful.{M, ◌>>=◌, ◌>>◌, return, reads, modify, throw}

-- `os.environ`
abbrev pub Environ : Type 0
Environ = Names String

-- `for k in list(kwargs.keys()): if kwargs[k] is None: del kwargs[k]`
abbrev pub without_none : Names (Option String) → Names String
without_none [] = []
without_none ((k, none) ∷ rest) = without_none rest
without_none ((k, some v) ∷ rest) = (k, v) ∷ without_none rest

-- `backup[k] = os.environ.get(k)` for the keys of the arguments.
abbrev pub backup_of : Names String → Environ → Names (Option String)
backup_of [] environ = []
backup_of ((k, v) ∷ rest) environ = (k, lookup_name k environ) ∷ backup_of rest environ

abbrev pub set_all : Names String → Environ → Environ
set_all [] environ = environ
set_all ((k, v) ∷ rest) environ = set_all rest (assign_name k v environ)

-- One round of the loop that restores: `del` raises where there is no such key.
abbrev pub restore_one : String × Option String → M Environ (Unit {0})
restore_one (k, some v) environ = (ok tt, assign_name k v environ)
restore_one (k, none) environ = elim (lookup_name k environ) [
  | none ↦ (raise key_error, environ)
  | some v ↦ (ok tt, delete_name k environ)
]

abbrev pub restore : Names (Option String) → M Environ (Unit {0})
restore [] = return tt
restore (entry ∷ rest) = do restore_one entry; restore rest

-- What the `finally` block leaves of the body's result.
abbrev pub finally_result : {A : Type 0} → Result A → Result (Unit {0}) → Result A
finally_result body (ok _) = body
finally_result body (raise e) = raise e

-- `with env(**kwargs): body`. The keys of keyword arguments are distinct.
unfoldable pub env : {A : Type 0} → Names (Option String) → M Environ A → M Environ A
env kwargs body environ =
    let given = without_none kwargs in
    let backup = backup_of given environ in
    let (result, inside) = body (set_all given environ) in
    let (restored, after) = restore backup inside in (finally_result result restored, after)

-- The arguments that `set_env_from_args` looks at.
pub record Arguments : Type 0 where
  pub timeline_filename : Option String
  pub verbose : Bool

-- `_add_arg_to_env`, without a transformation.
unfoldable pub add_arg_to_env : String → Option String → Environ → Environ
add_arg_to_env key none environ = environ
add_arg_to_env key (some value) environ = assign_name key value environ

-- `if args.timeline_filename`, which an empty name does not pass.
abbrev pub is_given : Option String → Bool
is_given none = false
is_given (some name) = if same_name name "" then false else true

unfoldable pub set_env_from_args : Arguments → Environ → Environ
unfolding add_arg_to_env
set_env_from_args args environ =
    let timed =
      if is_given args.timeline_filename
      then add_arg_to_env "BLUEFOG_TIMELINE" args.timeline_filename environ
      else environ in
    if args.verbose then add_arg_to_env "BLUEFOG_LOG_LEVEL" (some "debug") timed else timed
