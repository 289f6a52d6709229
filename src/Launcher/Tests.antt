-- ===== src/Launcher/Tests.antt =====
-- Small runs of the launcher's helpers.
use Prim.Native.String.{String}
use bluefog.Common.{
  ℕ, suc, zero, ◌≤◌, ◌<◌, ◌≡◌, refl, arith, Bool, true, false, ◌==◌, ◌||◌, if◌then◌else◌, Option,
  none, some, List, [], ◌∷◌, ok,
}
use bluefog.Common.Names.{Names, same_name, lookup_name, assign_name}
use bluefog.Common.Stateful.{M}
use bluefog.Launcher.Environment.{Environ, env, without_none, set_all}
use bluefog.Launcher.Environment.Restore.{is_key, env-restores}
use bluefog.Launcher.Network.{filter_local_addresses, run_on_all_hosts}
use bluefog.Launcher.Network.Threads.{
  remote_of, outcome, filter_local_addresses_order, run_on_all_hosts-any_order,
}
use bluefog.Launcher.Network.Retry.{
  exec_command, attempt, succeeds, ssh_retries, exec_command_bounded,
}

abbrev setting : Names (Option String)
setting = ("A", some "1") ∷ ("B", none) ∷ ("C", some "2") ∷ []

abbrev old : Environ
old = ("A", "0") ∷ ("D", "4") ∷ []

-- A program that sets a variable of its own.
abbrev program : M Environ Bool
program environ = (ok true, assign_name "D" "5" environ)

env-restores_example :
    let given = without_none setting in
    let (result, inside) = program (set_all given old) in
    let (result', after) = env setting program old in
    (result' ≡ result)
    × ((k : String)
        → lookup_name k after
          ≡ (if is_key k given then lookup_name k old else lookup_name k inside))
env-restores_example = env-restores setting program old refl refl

abbrev addresses : String → Option String
addresses name = if same_name name "here" then some "10.0.0.1" else some "10.0.0.2"

abbrev local_addresses : List String
local_addresses = "10.0.0.1" ∷ []

abbrev here : String
here = "here"

abbrev there : String
there = "there"

filter_local_addresses_order_example :
    let hosts = here ∷ there ∷ [] in
    let filtered = filter_local_addresses addresses local_addresses hosts in
    (remote_of addresses local_addresses hosts ≡ there ∷ [])
    × (filtered (0 ∷ 1 ∷ []) ≡ ok (there ∷ []))
    × (filtered (1 ∷ 0 ∷ []) ≡ ok (here ∷ []))
filter_local_addresses_order_example =
    filter_local_addresses_order addresses local_addresses here there refl refl

abbrev reply : String → ℕ × String
reply command = if same_name command "ssh a date" then (0, "") else (255, "no route")

abbrev commands : List String
commands = "ssh a date" ∷ "ssh b date" ∷ []

run_on_all_hosts-any_order_example :
    run_on_all_hosts (λ command. ok (reply command)) commands (1 ∷ 0 ∷ []) ≡ outcome reply commands
run_on_all_hosts-any_order_example =
    run_on_all_hosts-any_order reply commands (1 ∷ 0 ∷ []) refl (λ k. ground arith)

abbrev second_try : ℕ → ℕ × String
second_try k = if k == 0 then (255, "no route") else (0, "")

exec_command_bounded_example :
    let (result, attempts) = exec_command (attempt second_try) zero in
    (attempts ≤ ssh_retries)
    × (exit_code : ℕ) × (output_msg : String) × (result ≡ ok (exit_code, output_msg))
    × ((exit_code == 0) ≡ (succeeds second_try 0 || succeeds second_try 1 || succeeds second_try 2))
    × (succeeds second_try 0 ≡ true → (attempts ≡ suc zero) × (output_msg ≡ ""))
    × (succeeds second_try 0 ≡ false
        → (1 < attempts) × (j : ℕ) × (j < attempts) × (output_msg ≡ (second_try j).1))
exec_command_bounded_example = exec_command_bounded second_try
