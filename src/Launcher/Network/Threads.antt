-- ===== src/Launcher/Network/Threads.antt =====
-- What threads answer, whatever the order in which they complete.
use Prim.Native.String.{String}
use bluefog.Common.{
  ℕ, zero, suc, ◌<◌, ◌≡◌, ◌∙◌, sym, refl, arith, Bool, true, false, ◌&&◌, ltb, ◌==◌, if◌then◌else◌,
  Option, List, [], ◌∷◌, length, Result, ok, raise, value_error, system_exit, item, Result-cases,
  Bool-cases, inl, inr,
}
use bluefog.Common.Dict.{Dict, assign, keys, elem-keys-assign}
use bluefog.Common.Ranks.{elem, distinct}
use bluefog.Launcher.Network.{
  gather, execute_function_multithreaded, is_remote, filter_local_addresses, all_successful,
  run_on_all_hosts,
}

-- The host names that are not those of this machine: each is judged by its own address.
abbrev pub remote_of : (String → Option String) → List String → List String → List String
remote_of gethostbyname local_addresses [] = []
remote_of gethostbyname local_addresses (name ∷ names) =
    let rest = remote_of gethostbyname local_addresses names in
    if is_remote local_addresses (gethostbyname name) then name ∷ rest else rest

-- Of a local and a remote host, the second is what should be found. It is found if the threads
-- complete in the order of the hosts; in the other order the local host is taken for the remote
-- one.
pub filter_local_addresses_order :
    (gethostbyname : String → Option String) (local_addresses : List String) (here there : String)
    → is_remote local_addresses (gethostbyname here) ≡ false
    → is_remote local_addresses (gethostbyname there) ≡ true
    → let hosts = here ∷ there ∷ [] in
      let filtered = filter_local_addresses gethostbyname local_addresses hosts in
      (remote_of gethostbyname local_addresses hosts ≡ there ∷ [])
      × (filtered (0 ∷ 1 ∷ []) ≡ ok (there ∷ []))
      × (filtered (1 ∷ 0 ∷ []) ≡ ok (here ∷ []))
unfolding filter_local_addresses execute_function_multithreaded
filter_local_addresses_order gethostbyname local_addresses here there l r =
    (ground (arith, l, r), ground (arith, l, r), ground (arith, l, r))

-- Each of the commands exits with zero.
abbrev pub all_exit_zero : (String → ℕ × String) → List String → Bool
all_exit_zero run [] = true
all_exit_zero run (command ∷ rest) = (run command).0 == 0 && all_exit_zero run rest

-- The same over the commands at some indices.
abbrev exit_zero_at : (String → ℕ × String) → List String → List ℕ → Bool
exit_zero_at run commands [] = true
exit_zero_at run commands (index ∷ rest) = elim (item commands index) [
  | ok command ↦ (run command).0 == 0 && exit_zero_at run commands rest
  | raise e ↦ exit_zero_at run commands rest
]

all_successful-assign :
    (k : ℕ) (r : ℕ × String) (d : Dict (ℕ × String))
    → elem k (keys d) ≡ false
    → all_successful (assign k r d) ≡ (all_successful d && r.0 == 0)
all_successful-assign k (code, msg) [] n = ground arith
all_successful-assign k (code, msg) ((j, (c, m)) ∷ d) n =
    ground (arith, all_successful-assign k (code, msg) d)

item-inside :
    (commands : List String) (index : ℕ)
    → index < length commands
    → (command : String) × (item commands index ≡ ok command)
item-inside [] index i = absurd (ground arith)
item-inside (c ∷ cs) zero i = (c, refl)
item-inside (c ∷ cs) (suc index) i = item-inside cs index (ground arith)

gather-successful :
    (run : String → ℕ × String) (commands : List String) (results : Dict (ℕ × String))
    (completed : List ℕ)
    → distinct completed ≡ true
    → ((k : ℕ) → elem k completed ≡ true → (k < length commands) × (elem k (keys results) ≡ false))
    → (codes : Dict (ℕ × String)) × (gather (λ command. ok (run command)) commands results completed
        ≡ ok codes)
      × (all_successful codes ≡ (all_successful results && exit_zero_at run commands completed))
gather-successful run commands results [] once inside = (results, refl, ground arith)
gather-successful run commands results (k ∷ ks) once inside =
    let (bound, absent) = inside k (ground arith) in
    let (command, at) = item-inside commands k bound in
    let (codes, ran, all) =
      gather-successful run commands (assign k (run command) results) ks (ground arith) (λ j m.
        let (b, a) = inside j (ground arith) in
        (b, ground (arith, elem-keys-assign j k (run command) results))) in
    (
      codes,
      ground (arith, at, ran),
      ground (arith, at, all, all_successful-assign k (run command) results absent),
    )

all_exit_zero-item :
    (run : String → ℕ × String) (commands : List String) (k : ℕ) (command : String)
    → all_exit_zero run commands ≡ true
    → item commands k ≡ ok command
    → ((run command).0 == 0) ≡ true
all_exit_zero-item run [] k command a at = absurd (ground arith)
all_exit_zero-item run (c ∷ cs) zero command a at = ground (arith, at)
all_exit_zero-item run (c ∷ cs) (suc k) command a at =
    all_exit_zero-item run cs k command (ground arith) at

exit_zero_at-all :
    (run : String → ℕ × String) (commands : List String) (ks : List ℕ)
    → all_exit_zero run commands ≡ true
    → exit_zero_at run commands ks ≡ true
exit_zero_at-all run commands [] a = refl
exit_zero_at-all run commands (k ∷ ks) a = elim (Result-cases (item commands k)) [
  | inl (e, out) ↦ ground (arith, out, exit_zero_at-all run commands ks a)
  | inr (command, at) ↦ ground (
    arith,
    at,
    exit_zero_at-all run commands ks a,
    all_exit_zero-item run commands k command a at,
  )
]

exit_zero_at-item :
    (run : String → ℕ × String) (commands : List String) (ks : List ℕ) (k : ℕ) (command : String)
    → exit_zero_at run commands ks ≡ true
    → elem k ks ≡ true
    → item commands k ≡ ok command
    → ((run command).0 == 0) ≡ true
exit_zero_at-item run commands [] k command a m at = absurd (ground arith)
exit_zero_at-item run commands (j ∷ ks) k command a m at = elim (Result-cases (item commands j)) [
  | inl (e, out) ↦
      let rest = exit_zero_at-item run commands ks k command in
      let apart : (k == j) ≡ false = elim (Bool-cases (k == j)) [
        | inr n ↦ n
        | inl same ↦ let equal : k ≡ j = ground arith in absurd (ground (arith, equal, at, out))
      ] in
      ground (arith, out, rest, apart)
  | inr (other, there) ↦
      let rest = exit_zero_at-item run commands ks k command in
      elim (Bool-cases (k == j)) [
        | inr n ↦ ground (arith, there, rest, n)
        | inl same ↦
            let equal : k ≡ j = ground arith in
            let mine : other ≡ command = ground (arith, equal, at, there) in
            ground (arith, there, mine)
      ]
]

exit_zero-all :
    (run : String → ℕ × String) (commands : List String)
    → ((k : ℕ) (command : String) → item commands k ≡ ok command → ((run command).0 == 0) ≡ true)
    → all_exit_zero run commands ≡ true
exit_zero-all run [] z = refl
exit_zero-all run (c ∷ cs) z =
    let first = z zero c refl in
    let rest = exit_zero-all run cs (λ k. z (suc k)) in ground (arith, first, rest)

item-bound :
    (commands : List String) (k : ℕ) (command : String)
    → item commands k ≡ ok command
    → ltb k (length commands) ≡ true
item-bound [] k command at = absurd (ground arith)
item-bound (c ∷ cs) zero command at = ground arith
item-bound (c ∷ cs) (suc k) command at = ground (arith, item-bound cs k command)

-- What is to be answered for some commands.
abbrev pub outcome : (String → ℕ × String) → List String → Result Bool
outcome run [] = raise value_error
outcome run (command ∷ rest) =
    if all_exit_zero run (command ∷ rest) then ok true else raise system_exit

-- If each thread completes once and none raises, then in whatever order they complete, the
-- answer is that all hosts were reached exactly if each command exits with zero, and the program
-- is ended otherwise. For no hosts at all a ValueError is raised.
pub run_on_all_hosts-any_order :
    (run : String → ℕ × String) (commands : List String) (completed : List ℕ)
    → distinct completed ≡ true
    → ((k : ℕ) → elem k completed ≡ ltb k (length commands))
    → run_on_all_hosts (λ command. ok (run command)) commands completed ≡ outcome run commands
unfolding run_on_all_hosts
run_on_all_hosts-any_order run [] completed once inside = refl
run_on_all_hosts-any_order run (c ∷ cs) completed once inside =
    let commands = c ∷ cs in
    let (codes, ran, all) =
      gather-successful run commands [] completed once (λ k m. (ground (arith, inside k), refl)) in
    let same : exit_zero_at run commands completed ≡ all_exit_zero run commands =
      elim (Bool-cases (all_exit_zero run commands)) [
        | inl good ↦ exit_zero_at-all run commands completed good ∙ sym good
        | inr bad ↦ elim (Bool-cases (exit_zero_at run commands completed)) [
          | inr n ↦ n ∙ sym bad
          | inl every ↦
              let good = exit_zero-all run commands (λ k command at.
                exit_zero_at-item run commands completed k command every
                  (inside k ∙ item-bound commands k command at) at) in
              every ∙ sym good
        ]
      ] in
    ground (arith, ran, all, same)
