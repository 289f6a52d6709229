-- ===== src/Launcher/Network/Retry.antt =====
-- `exec_command`: a command is tried three times.
use Prim.Native.String.{String}
use bluefog.Common.{
  ℕ, zero, suc, ◌+◌, ◌≤◌, ◌<◌, ◌≡◌, Bool-cases, inl, inr, refl, arith, Bool, true, false, ◌||◌,
  ◌==◌, if◌then◌else◌, ok,
}
use bluefog.Common.Stateful.{M, ◌>>=◌, return}

abbrev pub ssh_retries : ℕ
ssh_retries = 3

-- The loop; `safe_shell_exec` runs the command, and answers its exit code and what it has written.
abbrev pub tries : {S : Type 0} → M S (ℕ × String) → ℕ → ℕ × String → M S (ℕ × String)
tries execute zero last = return last
tries execute (suc left) (exit_code, output_msg) = do
  (code, output) ← execute
  (if code == 0 then return (code, output_msg) else tries execute left (code, output))

unfoldable pub exec_command : {S : Type 0} → M S (ℕ × String) → M S (ℕ × String)
exec_command execute = tries execute ssh_retries (1, "")

-- The command that the attempt `k` runs, where the state counts the attempts.
abbrev pub attempt : (ℕ → ℕ × String) → M ℕ (ℕ × String)
attempt run k = (ok (run k), k + 1)

abbrev pub succeeds : (ℕ → ℕ × String) → ℕ → Bool
succeeds run k = (run k).0 == 0

-- A command is tried at most three times, and succeeds exactly if one of the first three
-- attempts does. The message is empty if the first attempt succeeds, and else what one of the
-- attempts has written.
pub exec_command_bounded :
    (run : ℕ → ℕ × String)
    → let (result, attempts) = exec_command (attempt run) zero in
      (attempts ≤ ssh_retries)
      × (exit_code : ℕ) × (output_msg : String) × (result ≡ ok (exit_code, output_msg))
      × ((exit_code == 0) ≡ (succeeds run 0 || succeeds run 1 || succeeds run 2))
      × (succeeds run 0 ≡ true → (attempts ≡ suc zero) × (output_msg ≡ ""))
      × (succeeds run 0 ≡ false
          → (1 < attempts) × (j : ℕ) × (j < attempts) × (output_msg ≡ (run j).1))
unfolding exec_command
exec_command_bounded run = elim (Bool-cases (succeeds run 0)) [
  | inl first ↦
      let whole : exec_command (attempt run) zero ≡ (ok ((run 0).0, ""), 1) =
        ground (arith, first) in
      rw whole (
        ground arith,
        (run 0).0,
        "",
        refl,
        ground (arith, first),
        λ _. (refl, refl),
        λ n. absurd (ground (arith, first)),
      )
  | inr failed ↦ elim (Bool-cases (succeeds run 1)) [
    | inl second ↦
        let whole : exec_command (attempt run) zero ≡ (ok ((run 1).0, (run 0).1), 2) =
          ground (arith, failed, second) in
        rw whole (
          ground arith,
          (run 1).0,
          (run 0).1,
          refl,
          ground (arith, failed, second),
          λ n. absurd (ground (arith, failed)),
          λ _. (ground arith, 0, ground arith, refl),
        )
    | inr again ↦ elim (Bool-cases (succeeds run 2)) [
      | inl third ↦
          let whole : exec_command (attempt run) zero ≡ (ok ((run 2).0, (run 1).1), 3) =
            ground (arith, failed, again, third) in
          rw whole (
            ground arith,
            (run 2).0,
            (run 1).1,
            refl,
            ground (arith, failed, again, third),
            λ n. absurd (ground (arith, failed)),
            λ _. (ground arith, 1, ground arith, refl),
          )
      | inr never ↦
          let whole : exec_command (attempt run) zero ≡ (ok (run 2), 3) =
            ground (arith, failed, again, never) in
          rw whole (
            ground arith,
            (run 2).0,
            (run 2).1,
            refl,
            ground (arith, failed, again, never),
            λ n. absurd (ground (arith, failed)),
            λ _. (ground arith, 2, ground arith, refl),
          )
    ]
  ]
]
