-- ===== src/Tests/Schedules.antt =====
-- The theorems on the three goroutines, applied to two runs.
use mathlib.Core.WellFounded.{Acc}
use linux_id.Common.{◌≡◌, ◌++◌, refl, true, some, []}
use linux_id.Hid.Reader.{parse_packets}
use linux_id.Hid.Run.{run_packets}
use linux_id.Server.U2f.{result}
use linux_id.Parallel.Same.{bare}
use linux_id.Parallel.Events.{under_way}
use linux_id.Parallel.Heard.{heard_in}
use linux_id.Parallel.Order.{passed_in, served_in, Reached-run_packets}
use linux_id.Parallel.Reports.{reports}
use linux_id.Parallel.Written.{transport_wrote, server_wrote, to_reply, rounds_in}
use linux_id.Parallel.Rounds.{unwritten, Reached-rounds_in}
use linux_id.Parallel.FrameSize.{AllReports}
use linux_id.Parallel.Sizes.{wrote_in, Reached-AllReports}
use linux_id.Parallel.Answers.{AllDone, Reached-AllDone}
use linux_id.Common.{◌⊎◌}
use linux_id.Parallel.Rest.{Next}
use linux_id.Parallel.Progress.{Standing, Reached-settles}
use linux_id.Tests.Data.{tape, token, signer, services, server, confirmed}
use linux_id.Tests.Messages.{System₀}
use linux_id.Tests.Trace.{
  serves, s₈, history, scheduled, s₆', history', scheduled', commands, heard_commands,
  commands-AllSendable,
}

Reached-run_packets_example :
    ((run_packets tape token (parse_packets (heard_in history)).0).1
      ≡ passed_in history ++ under_way s₈.reader s₈.transport_phase s₈.transport [])
    × (s₈.server ≡ served_in signer services tape token server history)
Reached-run_packets_example =
    Reached-run_packets signer services tape token server history s₈ scheduled

Reached-settles_example :
    Acc (Next signer services tape) s₈
    × Standing signer services tape token history s₈ confirmed (result true)
Reached-settles_example =
    Reached-settles signer services tape token server history s₈ confirmed (result true) scheduled

Reached-rounds_in_example :
    (reports (bare token) (parse_packets (heard_in history)).0
      ≡ transport_wrote history ++ unwritten signer services tape token s₈ [])
    × (rounds_in signer services server history
        ≡ some (s₈.server, server_wrote history ++ to_reply s₈.server_phase))
Reached-rounds_in_example =
    Reached-rounds_in signer services tape token server history s₈ scheduled refl

Reached-AllReports_example : AllReports (wrote_in history)
Reached-AllReports_example =
    Reached-AllReports signer services tape token server history s₈ scheduled

Reached-AllDone_example :
    Acc (Next signer services tape) s₆'
    × (((t : System₀) × Next signer services tape t s₆')
        ⊎ AllDone signer services tape token serves 0 commands commands-AllSendable server history'
            s₆')
Reached-AllDone_example =
    Reached-AllDone signer services tape token serves 0 commands commands-AllSendable server
      history' s₆' confirmed (result true) scheduled' heard_commands refl
