-- ===== src/Jobs/Examples.antt =====
-- The theorems about the job queues at three users of one bot, and tests of the model.
use yzj_bot_bridge.Prelude.{
  ℕ, String, ◌≡◌, refl, ◌≢◌, true, false, some, List, [], ◌∷◌, map, arith, eq_iff, length, concat,
}
use yzj_bot_bridge.Jobs.Types.{merge_waiting, Item, Slot, accepted, merged}
use yzj_bot_bridge.Jobs.Invariant.{Inv}
use yzj_bot_bridge.Jobs.Preserved.{Call, accepts, Named, step, run, history-Inv}
use yzj_bot_bridge.Jobs.Line.{members, Joined, try_accept-Joined}
use yzj_bot_bridge.Jobs.Refinement.{spec_run, run-refines}
use yzj_bot_bridge.Jobs.Drain.{drive, drive_drains}
use yzj_bot_bridge.Jobs.Texts.{
  Drains, add_texts, joined, drain-add_texts, merged_text_lost, anonymous_job_overlaps,
}
use yzj_bot_bridge.Jobs.Cancel.{Cancels, cancel-Cancels}
use yzj_bot_bridge.Jobs.{
  Manager, new, try_accept, finish, cancel, context, snapshot, use_channel_queue,
}

abbrev item : String → String → Item ℕ
item u text = record { open_id = u; name = u; content = text; payload = some 7 }

-- Ann runs; Ben and Cy wait, Ben with two texts; Ann has added a text.
abbrev calls : List (Call ℕ)
calls =
    accepts "q" (item "ann" "one")
    ∷ accepts "q" (item "ben" "two")
    ∷ accepts "q" (item "cy" "three")
    ∷ accepts "q" (item "ben" "four")
    ∷ accepts "q" (item "ann" "five")
    ∷ []

calls-Named : Named calls
calls-Named = (
  ground (arith, eq_iff "ann" ""),
  (
    ground (arith, eq_iff "ben" ""),
    (
      ground (arith, eq_iff "cy" ""),
      (ground (arith, eq_iff "ben" ""), (ground (arith, eq_iff "ann" ""), tt)),
    ),
  ),
)

abbrev queued_up : Manager ℕ
queued_up = run new calls

queued_up-members : members queued_up "q" ≡ "ann" ∷ "ben" ∷ "cy" ∷ []
unfolding run step try_accept new merge_waiting
queued_up-members = refl

merged_content :
    map (λ (q : Item ℕ). q.content) (snapshot queued_up "q").queue ≡ "two\nfour" ∷ "three" ∷ []
unfolding run step try_accept new snapshot concat merge_waiting
merged_content = refl

history-Inv_example : Inv queued_up
history-Inv_example = history-Inv calls calls-Named

run-refines_example : members queued_up "q" ≡ spec_run (λ j. []) calls "q"
run-refines_example = run-refines calls "q" calls-Named

try_accept-Joined_example :
    Joined
      (try_accept queued_up "q" (item "dee" "six")).0
      "q"
      "dee"
      (members queued_up "q")
      (try_accept queued_up "q" (item "dee" "six")).1
try_accept-Joined_example =
    try_accept-Joined queued_up "q" (item "dee" "six") (history-Inv calls calls-Named)

drive_drains_example :
    (members (drive (length (members queued_up "q")) queued_up "q").0 "q" ≡ [])
    × ((drive (length (members queued_up "q")) queued_up "q").1 ≡ members queued_up "q")
drive_drains_example = drive_drains queued_up "q" (history-Inv calls calls-Named)

-- Ann alone.
abbrev running : Manager ℕ
running = (try_accept new "q" (item "ann" "one")).0

abbrev ann_slot : Slot ℕ
ann_slot = record {
  busy_open_id = "ann";
  busy_name = "ann";
  busy_content = "one";
  extra = "";
  queue = [];
  ctx = some 0;
  cancel = some 0;
}

running-slot : running.slots "q" ≡ some ann_slot
unfolding try_accept new
running-slot = refl

ann-named : ◌≢◌ {A = String} "ann" ""
ann-named = ground (arith, eq_iff "ann" "")

drain-add_texts_example :
    Drains
      (add_texts running "q" (item "ann" "") ("two" ∷ "three" ∷ []))
      "q"
      "ann"
      (joined "" ("two" ∷ "three" ∷ []))
drain-add_texts_example =
    drain-add_texts running "q" (item "ann" "") ann_slot ("two" ∷ "three" ∷ []) running-slot
      ann-named refl

merged_text_lost_example :
    ((try_accept running "q" (item "ann" "late")).1.status ≡ merged)
    × ((finish (try_accept running "q" (item "ann" "late")).0 "q" "ann").0.slots "q"
        ≡ (finish running "q" "ann").0.slots "q")
    × ((finish (try_accept running "q" (item "ann" "late")).0 "q" "ann").1
        ≡ (finish running "q" "ann").1)
merged_text_lost_example =
    merged_text_lost running "q" (item "ann" "late") ann_slot running-slot ann-named refl

anonymous_job_overlaps_example :
    ((try_accept (new {P = ℕ}) "q" (item "" "one")).1.status ≡ accepted)
    × ((try_accept (try_accept new "q" (item "" "one")).0 "q" (item "ann" "two")).1.status
        ≡ accepted)
unfolding new
anonymous_job_overlaps_example =
    anonymous_job_overlaps new "q" (item "" "one") (item "ann" "two") refl refl

running-Inv : Inv running
unfolding run step
running-Inv = history-Inv (accepts "q" (item "ann" "one") ∷ []) (ann-named, tt)

cancel-Cancels_example : (c : ℕ) × (context running "q" ≡ some c) × Cancels running "q" c
cancel-Cancels_example = cancel-Cancels running "q" ann_slot running-Inv running-slot

channel_modes :
    (use_channel_queue "Shared" "" ≡ true)
    × (use_channel_queue "shared" " USER" ≡ false)
    × (use_channel_queue "user" "channel" ≡ true)
    × (use_channel_queue "user" "other" ≡ false)
unfolding use_channel_queue
channel_modes = (refl, refl, refl, refl)

a_cancel : (cancel running "q").1 ≡ true
unfolding cancel try_accept new
a_cancel = refl
