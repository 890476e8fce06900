-- ===== src/Examples/Receiving.antt =====
-- Runs of the programs of examples that receive, count and capture packets.
use rust_nethuns.Common.{ℕ, ◌+◌, ◌<◌, ◌≡◌, refl, true, some, List, [], ◌∷◌, arith}
use rust_nethuns.Pcap.{tcpdump_magic}
use rust_nethuns.Pcap.File.{writing}
use rust_nethuns.Pcap.Reader.{socket_on}
use rust_nethuns.Programs.FilePcap.{Capture, run_read_count_mode, capture_loop}
use rust_nethuns.Programs.FilePcap.Counting.{run_read_count_mode_lem}
use rust_nethuns.Programs.FilePcap.Capturing.{Stores, capture_loop_lem}
use rust_nethuns.Programs.Receive.{Receiver, Metered, Pkt, mt_execution, filter_loop}
use rust_nethuns.Programs.Receive.Loop.{metered, Counted, mt_execution_lem}
use rust_nethuns.Programs.Receive.Steps.{Steps, Passes}
use rust_nethuns.Programs.Receive.Shared.{Round, st_execution}
use rust_nethuns.Programs.Receive.Shared.Rounds.{AreMetered, st_execution_lem}
use rust_nethuns.Programs.Receive.Filtering.{IsCounted, filter_loop_lem}
use rust_nethuns.Programs.Receptions.{Receptions}
use rust_nethuns.Pkthdr.{Pkthdr}
use rust_nethuns.Programs.Meter.{Meters, Event, packet, tick, run}
use rust_nethuns.Programs.Meter.Conserved.{known, known-run}
use rust_nethuns.Examples.Port.{quiet, quiet-RxSyncLaws}
use rust_nethuns.Examples.Socket.{options, ready}
use rust_nethuns.Examples.Forwarding.{ready-Receiving}
use rust_nethuns.Examples.Files.{disk, two_records, two-AreWhole, rx}
use rust_nethuns.Pcap.Opening.{file_bytes}

run_read_count_mode_example :
    run_read_count_mode 5 (disk (file_bytes two_records)) [] ≡ some (some (2, 0))
run_read_count_mode_example =
    run_read_count_mode_lem (disk (file_bytes two_records)) [] 200 5 two_records refl two-AreWhole
      (omega arith)

abbrev receiver : Receiver
receiver = record { socket = ready; total = 5; count_to_dump = 9999999 }

mt_execution_example :
    (out : Pkt) × (mt_execution quiet (λ bytes. true) 3 true receiver ≡ some out)
    × Steps quiet (λ bytes. true) true 3 (metered receiver) out.0 (metered out.1)
    × Counted 2 2 4 3 receiver out.1
mt_execution_example =
    mt_execution_lem quiet quiet-RxSyncLaws (λ bytes. true) true 3 receiver ready-Receiving
      (omega arith)

-- Two sockets, with a counter each.
abbrev sockets : List Metered
sockets = record { sock = ready; tot = 5 } ∷ record { sock = ready; tot = 0 } ∷ []

st_execution_example :
    (out : Round) × (st_execution quiet (λ bytes. true) true 3 sockets 9999999 ≡ some out)
    × Passes quiet (λ bytes. true) true 3 sockets out.0 out.1
    × AreMetered 2 2 4 3 sockets out.1
    × (out.2 < 10000000)
st_execution_example =
    st_execution_lem 2 2 4 quiet quiet-RxSyncLaws (λ bytes. true) true 3 sockets 9999999
      (ready-Receiving, (ready-Receiving, tt)) (omega arith)

filter_loop_example :
    (st' : Receiver) × (packets : List (Pkthdr × List ℕ)) × (filter_loop quiet 3 receiver
      ≡ some st')
    × Receptions quiet 3 receiver.socket packets st'.socket
    × IsCounted packets receiver st'
    × Counted 2 2 4 3 receiver st'
filter_loop_example =
    filter_loop_lem quiet quiet-RxSyncLaws 3 receiver ready-Receiving (omega arith)

capture_loop_example :
    (c : Capture) × (capture_loop quiet 20 10 ready
        (socket_on options rx (writing 200 []) 4 tcpdump_magic)
      ≡ some c)
    × Stores 2 2 4 quiet 20 10 ready (socket_on options rx (writing 200 []) 4 tcpdump_magic) c
capture_loop_example =
    capture_loop_lem 2 2 4 quiet quiet-RxSyncLaws 20 10 ready
      (socket_on options rx (writing 200 []) 4 tcpdump_magic) ready-Receiving

-- Two counters: a packet is counted while the meter is between them.
abbrev at_first : Meters
at_first = record { totals = 0 ∷ 3 ∷ []; sum = 0; next = 0; printed = [] }

abbrev events : List Event
events = packet 0 ∷ tick ∷ packet 0 ∷ packet 1 ∷ tick ∷ tick ∷ tick ∷ []

known-run_example : known (run events at_first) ≡ 3 + 3
known-run_example =
    known-run events at_first (omega arith, (omega arith, (omega arith, tt))) (omega arith)
