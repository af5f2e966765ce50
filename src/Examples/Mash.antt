-- ===== src/Examples/Mash.antt =====
-- The theorems on the line protocol and on the web server's texts at concrete inputs.
use pageserv.Base.{
  ◌≡◌, refl, some, List, [], ◌∷◌, ◌++◌, ◌+◌, Bytes, arith, codes, leb, length, take, pos,
}
use pageserv.Clib.{c_string}
use pageserv.Text.{kw}
use pageserv.Clib.Decimal.{atoi}
use pageserv.Mash.Input.{gettextcr}
use pageserv.Queue.Format.{line}
use pageserv.Mash.Input.Line.{gettextcr-line}
use pageserv.Mash.Talk.{Talk, Change, stores, Step, going, ended, faulted}
use pageserv.Hours.{pack_timebits}
use pageserv.Mash.Talk.Quiet.{After, StoredOne}
use pageserv.Mash.Login.{System}
use pageserv.Mash.Login.Own.{Changed}
use pageserv.Mash.Process.{process}
use pageserv.Mash.Process.Pages.{process-Changed}
use pageserv.Http.Auth.{http_authdecode}
use pageserv.Http.Auth.RoundTrip.{encode, http_authdecode-encode}
use pageserv.Http.Args.{http_parseargs}
use pageserv.Http.Args.RoundTrip.{IsArg}
use pageserv.Http.Args.Form.{form, http_parseargs-form}
use pageserv.Examples.{office, start, dustin}

abbrev words : Bytes
words = codes "call me "

gettextcr-line_example :
    gettextcr [] (line words (codes "next"))
    ≡ some (record {
      text = kw (c_string (take 1024 (words ++ b'\n' ∷ [])));
      size = length words + 1;
      past_end = leb 1024 (length words + 1);
      rest = codes "next";
    })
gettextcr-line_example =
    gettextcr-line [] words (codes "next") (omega arith)
      (refl, (refl, (refl, (refl, (refl, (refl, (refl, (refl, tt))))))))

-- every word is its own hash
abbrev pub open_system : System
open_system = record { crypt = λ key salt. codes "ab1234567890x"; rand = 5 }

-- dustin logs in, and asks for the hours 8 to 17
abbrev client : Talk
client = record { world = start; input = codes "dustin\nsecret\ny\n8\n17\nn\n"; changes = [] }

process-Changed_example :
    After
      (λ a t1. StoredOne (Changed open_system office client.input) client t1)
      (StoredOne (Changed open_system office client.input) client)
      (process open_system office (pos 1) 0 (codes "login") client)
process-Changed_example = process-Changed open_system office (pos 1) 0 (codes "login") client

http_authdecode-encode_example :
    http_authdecode (encode (codes "ab" ++ b':' ∷ codes "c:d")) ≡ some (codes "ab", codes "c:d")
http_authdecode-encode_example =
    http_authdecode-encode (codes "ab") (codes "c:d")
      ((omega arith, refl, refl), ((omega arith, refl, refl), tt))
      ((omega arith, refl), ((omega arith, refl), ((omega arith, refl), tt)))

abbrev msg : Bytes × Bytes
msg = (codes "msg", codes "a&b")

msg-IsArg : IsArg msg
msg-IsArg = record {
  some_byte = omega arith;
  name = (refl, (refl, (refl, tt)));
  value = ((omega arith, refl), ((omega arith, refl), ((omega arith, refl), tt)));
}

abbrev who : Bytes × Bytes
who = (codes "id", codes "me")

who-IsArg : IsArg who
who-IsArg = record {
  some_byte = omega arith;
  name = (refl, (refl, tt));
  value = ((omega arith, refl), ((omega arith, refl), tt));
}

http_parseargs-form_example :
    http_parseargs [] (form (who ∷ msg ∷ [])) ≡ some ([] ++ who ∷ msg ∷ [])
http_parseargs-form_example = http_parseargs-form [] (who ∷ msg ∷ []) (who-IsArg, (msg-IsArg, tt))

abbrev pub changes_behind : Step (Unit {0}) → List Change
changes_behind (going a t) = t.changes
changes_behind (ended t) = t.changes
changes_behind faulted = []

-- the hours 8 to 17 are stored, for a word that is hashed to the stored password
logs_in :
    changes_behind (process open_system office (pos 1) 0 (codes "login") client)
    ≡ stores (record dustin { times = pack_timebits (pos 8) (pos 17) }) ∷ []
unfolding process atoi
logs_in = refl
