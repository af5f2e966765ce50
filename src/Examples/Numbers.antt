-- ===== src/Examples/Numbers.antt =====
-- The theorems on hours and addresses at concrete inputs.
use pageserv.Base.{◌≡◌, ◌==◌, if◌then◌else◌, pos, arith}
use pageserv.Hours.{bit_set, pack_timebits, getnormtimes}
use pageserv.Hours.Window.{in_span, pack_timebits-in_span, getnormtimes-pack_timebits}
use pageserv.Net.{nmc_int_to_dq, nmc_dq_to_int}
use pageserv.Net.Quad.{nmc_dq_to_int-nmc_int_to_dq}

pack_timebits-in_span_example :
    bit_set (pack_timebits (pos 22) (pos 6)) 3 ≡ in_span (if 22 == 0 then 23 else 22) 6 3
pack_timebits-in_span_example =
    pack_timebits-in_span 22 6 3 (omega arith) (omega arith) (omega arith) (omega arith)

getnormtimes-pack_timebits_example : getnormtimes (pack_timebits (pos 22) (pos 6)) ≡ (22, 6)
getnormtimes-pack_timebits_example =
    getnormtimes-pack_timebits 22 6 (omega arith) (omega arith) (omega arith) (omega arith)
      (omega arith)

nmc_dq_to_int-nmc_int_to_dq_example : nmc_dq_to_int (nmc_int_to_dq 0x0a0000ff) ≡ 0x0a0000ff
nmc_dq_to_int-nmc_int_to_dq_example = nmc_dq_to_int-nmc_int_to_dq 0x0a0000ff (omega arith)
