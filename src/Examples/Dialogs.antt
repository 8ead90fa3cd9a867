-- ===== src/Examples/Dialogs.antt =====
-- The dialogs of the console.
use ferrobucket.Base.{◌≡◌, refl, true, false, none, some}
use ferrobucket.Base.Text.{codes}
use ferrobucket.Base.Text.Trim.{trim, trim_start}
use ferrobucket.Ui.Dialogs.Creating as Creating
use ferrobucket.Ui.Dialogs.Creating.Single.{Single, loading-Reached}
use ferrobucket.Ui.Dialogs.Panel as Panel
use ferrobucket.Ui.Dialogs.Panel.Shown.{Shown, Shown-Reached}

abbrev asked : Creating.CreateBucketModal
asked = record { is_open = true; name = codes "docs"; error = none; loading = false }

asked-name : Creating.asked_name asked ≡ some (codes "docs")
unfolding trim trim_start
asked-name = refl

loading-Reached_example : Single 1 (Creating.handle_submit asked)
loading-Reached_example = loading-Reached 1 (Creating.handle_submit asked) (
    Creating.sent (codes "docs")
      (Creating.typed (codes "docs") (Creating.opened Creating.start) refl refl) refl refl
      asked-name)

abbrev confirming : Panel.SlideOver
confirming =
    Panel.handle_delete_confirm (Panel.handle_delete_open (Panel.handle_open Panel.opened_page))

Shown-Reached_example : Shown 1 1 confirming
Shown-Reached_example = Shown-Reached 1 1 confirming (
    Panel.delete_confirmed (Panel.delete_opened (Panel.opened_first Panel.start refl) refl) refl
      refl)
