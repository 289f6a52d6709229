-- ===== src/Basics/Suspend.antt =====
-- `suspend` and `resume`, and the flags that the library answers.
use bluefog.Common.{Bool, Option, ok}
use bluefog.Common.Stateful.{M, reads, modify}
use bluefog.Basics.Library.{Basics}
use bluefog.Basics.Queries.{initialized}

-- The calls of the library. An answer is `none` where it is -1.
pub record Flags (L : Type 0) : Type 0 where
  pub bluefog_suspend : L → L
  pub bluefog_resume : L → L
  pub bluefog_unified_mpi_window_model_supported : L → Option Bool
  pub bluefog_mpi_threads_supported : L → Option Bool
  pub bluefog_nccl_built : L → Bool
  pub bluefog_set_skip_negotiate_stage : Bool → L → L
  pub bluefog_get_skip_negotiate_stage : L → Bool

module _ {L W : Type 0} (flags : Flags L) where
  -- `if not util.is_running_from_ipython` tests the function and not its answer, so both methods
  -- always reach the library.
  unfoldable pub suspend : M (Basics L W) (Unit {0})
  suspend = modify (λ bf. record bf { library = flags.bluefog_suspend bf.library })

  unfoldable pub resume : M (Basics L W) (Unit {0})
  resume = modify (λ bf. record bf { library = flags.bluefog_resume bf.library })

  unfoldable pub unified_mpi_window_model_supported : M (Basics L W) Bool
  unified_mpi_window_model_supported =
      reads (λ bf. initialized (flags.bluefog_unified_mpi_window_model_supported bf.library))

  unfoldable pub mpi_threads_supported : M (Basics L W) Bool
  mpi_threads_supported = reads (λ bf. initialized (flags.bluefog_mpi_threads_supported bf.library))

  unfoldable pub nccl_built : M (Basics L W) Bool
  nccl_built = reads (λ bf. ok (flags.bluefog_nccl_built bf.library))

  unfoldable pub set_skip_negotiate_stage : Bool → M (Basics L W) (Unit {0})
  set_skip_negotiate_stage value =
      modify (λ bf. record bf { library = flags.bluefog_set_skip_negotiate_stage value bf.library })

  unfoldable pub get_skip_negotiate_stage : M (Basics L W) Bool
  get_skip_negotiate_stage = reads (λ bf. ok (flags.bluefog_get_skip_negotiate_stage bf.library))
