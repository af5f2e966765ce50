-- ===== src/Examples/Delivery.antt =====
-- The theorems on delivery at concrete inputs.
use pageserv.Base.{
  false, some, ℕ, ◌+◌, ◌%◌, ◌≤◌, ◌<◌, ◌≡◌, ◌↔◌, refl, true, none, List, [], ◌∷◌, ◌++◌,
  if◌then◌else◌, Bytes, pos, All, arith, codes, length,
}
use pageserv.Fs
use pageserv.Queue.Locks.{in_qdir, lock_path}
use pageserv.Queue.Format.{buflen}
use pageserv.Clib.{equal, contains}
use pageserv.Clib.Decimal.{print_nat}
use pageserv.Queue.Types.{World}
use pageserv.Delivery.Pass.{cleanmylocks}
use pageserv.Delivery.Pass.Clean.{my_lock, cleanmylocks-mine}
use pageserv.Delivery.{Arrival, Line}
use pageserv.Delivery.Modem.{s_modem_waitfor}
use pageserv.Delivery.Modem.Waits.{bytes, seconds, s_modem_waitfor-heard, s_modem_waitfor-hears}
use pageserv.Delivery.Tap.{c_ack, c_rs, s_tap_send, tap_checksum, tap_sent_checksum}
use pageserv.Delivery.Tap.Checksum.{total, checksum_value, tap_sent_checksum-tap_checksum}
use pageserv.Delivery.Tap.Send.{IsAcked, tap_text, s_tap_send_lem}
use pageserv.Delivery.Pass.{Pass, settle_entry}
use pageserv.Delivery.Pass.Entry.{ends_entry, settle_entry-Left}
use pageserv.Examples.{entry, office, start}

-- a terminal that asks for the id after a second, and then acknowledges
abbrev at : ℕ → ℕ → Arrival
at n c = record { after = n; byte = c }

abbrev noise : List Arrival
noise = at 1 b'x' ∷ []

abbrev prompt : List Arrival
prompt = at 0 b'I' ∷ at 0 b'D' ∷ at 0 b'=' ∷ []

abbrev reply : List Arrival
reply = at 0 c_ack ∷ []

abbrev port : Line
port = record { incoming = noise ++ (prompt ++ reply); out = [] }

abbrev port_after : Line
port_after = record { incoming = reply; out = [] }

s_modem_waitfor-hears_example : s_modem_waitfor (codes "ID=") 5 port ≡ (true, port_after)
s_modem_waitfor-hears_example =
    s_modem_waitfor-hears b'I' (codes "D=") noise prompt reply 5 [] (refl, tt) refl (omega arith)

s_modem_waitfor-heard_example :
    (before : Bytes) × (bytes port.incoming ≡ (before ++ codes "ID=") ++ bytes port_after.incoming)
    × (seconds port.incoming < seconds port_after.incoming + 5)
    × (port_after.out ≡ port.out)
s_modem_waitfor-heard_example =
    s_modem_waitfor-heard (codes "ID=") 5 port port_after (omega arith) (
      s_modem_waitfor-hears b'I' (codes "D=") noise prompt reply 5 [] (refl, tt) refl (omega arith))

tap_sent_checksum-tap_checksum_example :
    (checksum_value (tap_sent_checksum (tap_checksum (codes "hi"))) ≡ total (codes "hi") % 4096)
    × All (λ c. (48 ≤ c) × (c < 64)) (tap_sent_checksum (tap_checksum (codes "hi")))
tap_sent_checksum-tap_checksum_example =
    tap_sent_checksum-tap_checksum (codes "hi") (omega arith, (omega arith, tt))

s_tap_send_lem_example :
    (checksum : Bytes) × ((s_tap_send (codes "5551234") (codes "call me") port_after).1.out
      ≡ port_after.out ++ (tap_text (codes "5551234") (codes "call me") ++ (checksum ++ 0x0d ∷ [])))
    × (length (tap_text (codes "5551234") (codes "call me") ++ (checksum ++ 0x0d ∷ [])) < buflen)
    × (All (λ c. c < 128) (codes "5551234")
        → All (λ c. c < 128) (codes "call me")
        → checksum_value checksum ≡ total (tap_text (codes "5551234") (codes "call me")) % 4096)
    × (((s_tap_send (codes "5551234") (codes "call me") port_after).0 ≡ pos 0)
        ↔ IsAcked port_after.incoming)
s_tap_send_lem_example = s_tap_send_lem (codes "5551234") (codes "call me") port_after (omega arith)

abbrev pass : Pass
pass = record { world = start; line = port; notes = [] }

settle_entry-Left_example :
    (Fs.get (settle_entry office true entry (pos c_rs) pass).world.files (in_qdir office entry.qid)
      ≡ (if ends_entry true (pos c_rs)
          then none
          else Fs.get pass.world.files (in_qdir office entry.qid)))
    × (Fs.get
          (settle_entry office true entry (pos c_rs) pass).world.files
          (lock_path office entry.qid)
        ≡ none)
settle_entry-Left_example =
    settle_entry-Left office true entry (codes "7A") (pos c_rs) pass refl
      ((refl, refl), ((refl, refl), tt))

-- the queue with the lock of its entry
abbrev held : World
held = record start { files = (codes "/q/l7A", codes "7\n") ∷ start.files }

no_slash : contains (codes "l7A") b'/' ≡ false
unfolding contains
no_slash = refl

is_held : Fs.get held.files (in_qdir office (codes "l7A")) ≡ some (my_lock office)
unfolding Fs.get in_qdir equal print_nat
is_held = refl

cleanmylocks-mine_example :
    Fs.get (cleanmylocks office held).files (in_qdir office (codes "l7A")) ≡ none
cleanmylocks-mine_example = cleanmylocks-mine office (codes "7A") held no_slash is_held
