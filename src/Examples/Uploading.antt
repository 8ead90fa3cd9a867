-- ===== src/Examples/Uploading.antt =====
-- Two files chosen in a page, of which one is refused.
use ferrobucket.Base.{◌+◌, ◌^◌, ◌≡◌, refl, false, length, retain, arith, All}
use ferrobucket.Base.Text.{codes}
use ferrobucket.Error.{ok, err}
use ferrobucket.Ui.Zone.{
  Zone, Reached, start, file_chosen, upload_ended, finished_cleared, opened, process_file, settled,
  clear_finished, is_running, summary,
}
use ferrobucket.Ui.Zone.Counted.{pending-Reached, reload_due-Reached}

abbrev two_chosen : Zone
two_chosen = process_file (codes "b.iso") (2 ^ 33) (process_file (codes "a.txt") 5 opened)

two_chosen-Reached : Reached 2 two_chosen
two_chosen-Reached = file_chosen (codes "b.iso") (2 ^ 33) (file_chosen (codes "a.txt") 5 start)

abbrev one_ended : Zone
one_ended = settled (ok (codes "")) 0 two_chosen

one_ended-Reached : Reached 2 one_ended
one_ended-Reached = upload_ended (ok (codes "")) 0 two_chosen-Reached refl refl

abbrev both_ended : Zone
both_ended = settled (err tt) 1 one_ended

both_ended-Reached : Reached 2 both_ended
both_ended-Reached = upload_ended (err tt) 1 one_ended-Reached refl refl

pending-Reached_example :
    ((clear_finished one_ended).pending
      ≡ length (retain is_running (clear_finished one_ended).entries))
    × ((clear_finished one_ended).pending + (summary (clear_finished one_ended)).0
        ≡ (summary (clear_finished one_ended)).1)
pending-Reached_example = pending-Reached (finished_cleared one_ended-Reached) (omega arith)

reload_due-Reached_example : All (λ e. is_running e ≡ false) both_ended.entries
reload_due-Reached_example = reload_due-Reached both_ended-Reached (omega arith) refl
