-- ===== src/Delivery.antt =====
-- Delivery over a modem: delivery/tap.c, delivery/modem.c and delivery/misc.c. A `Line` is the open
-- port: what is still to arrive, each byte with the whole seconds that pass before it, and what was
-- written. Behind the last byte the line is closed, and a read gives none. Short sleeps are left out.
pub mod Modem
pub mod Tap
pub mod Pass
use pageserv.Base.{ℕ, ◌++◌, List, Bytes}

pub record Arrival : Type 0 where
  pub after : ℕ
  pub byte : ℕ

pub record Line : Type 0 where
  pub incoming : List Arrival
  pub out : Bytes

-- puttext(s, txt), to the modem
unfoldable pub put_line : Bytes → Line → Line
put_line txt p = record p { out = p.out ++ txt }
