-- ===== src/Basics/Timeline.antt =====
-- `timeline_start_activity` and `timeline_end_activity`: the first failure silences the timeline.
use bluefog.Common.{◌≡◌, arith, Bool, true, false, not, ◌&&◌, if◌then◌else◌, ok}
use bluefog.Common.Stateful.{M, ◌>>◌}
use bluefog.Basics.Library.{Library, Basics}

module _ {L : Type 0} {W : Type 0} (lib : Library L W) where
  -- Both methods: `starts` is the first argument of the call of the library.
  timeline_activity : Bool → M (Basics L W) Bool
  timeline_activity starts bf =
      if bf.warn_timeline
      then (ok false, bf)
      else let (done, library) = lib.bluefog_timeline starts bf.library in
        if not done && not bf.warn_timeline
        then (ok false, record bf { library = library; warn_timeline = true })
        else (ok true, record bf { library = library })

  unfoldable pub timeline_start_activity : M (Basics L W) Bool
  unfolding timeline_activity
  timeline_start_activity = timeline_activity true

  unfoldable pub timeline_end_activity : M (Basics L W) Bool
  unfolding timeline_activity
  timeline_end_activity = timeline_activity false

  -- The rest of `timeline_context`, which ends the activity on each exit.
  abbrev in_activity : {A : Type 0} → M (Basics L W) A → M (Basics L W) A
  in_activity body bf = let (result, inside) = body bf in (result, (timeline_end_activity inside).1)

  -- `with timeline_context(tensor_name, activity_name): body`
  unfoldable pub timeline_context : {A : Type 0} → M (Basics L W) A → M (Basics L W) A
  unfolding timeline_start_activity timeline_end_activity
  timeline_context body = do timeline_start_activity; in_activity body

  -- Once an activity could not be started, starting or ending any other answers false and does not
  -- reach the library; and an activity answers true exactly if the library took it.
  pub timeline_silenced :
      (bf : Basics L W)
      → let (result, after) = timeline_start_activity bf in
        (result ≡ ok false
          → (timeline_start_activity after ≡ (ok false, after))
            × (timeline_end_activity after ≡ (ok false, after)))
        × (bf.warn_timeline ≡ false → result ≡ ok (lib.bluefog_timeline true bf.library).0)
  unfolding timeline_start_activity timeline_end_activity
  timeline_silenced bf = ground arith

  -- If the library takes the activity and the body gives back its result `r` without silencing the
  -- timeline, then the context gives the same result and has ended the activity in the library.
  pub timeline_context-ends :
      {A : Type 0} (body : M (Basics L W) A) (bf : Basics L W)
      → bf.warn_timeline ≡ false
      → (lib.bluefog_timeline true bf.library).0 ≡ true
      → let entered = record bf { library = (lib.bluefog_timeline true bf.library).1 } in
        let (result, inside) = body entered in
        let (result', after) = timeline_context body bf in
        inside.warn_timeline ≡ false
        → (result' ≡ result) × (after.library ≡ (lib.bluefog_timeline false inside.library).1)
  unfolding timeline_context timeline_end_activity
  timeline_context-ends body bf quiet taken still =
      (ground (arith, quiet, taken, still), ground (arith, quiet, taken, still))
