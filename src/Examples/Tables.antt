-- ===== src/Examples/Tables.antt =====
-- The theorems on the sorts and on the tables of users at concrete inputs.
use mathlib.Core.List.{Perm}
use pageserv.Base.{◌≡◌, refl, true, false, some, List, [], ◌∷◌, Bytes, pos, arith, codes, inr}
use pageserv.Clib.{equal, contains}
use pageserv.Hours.{pack_timebits, getnormtimes}
use pageserv.Queue.Format.{line}
use pageserv.Queue.Format.RoundTrip.{OneLine}
use pageserv.Queue.Types.{User, Queuent}
use pageserv.Queue.Sort.{queuesort}
use pageserv.Queue.Sort.Ordered.{InOrder, queuesort-Sorted}
use pageserv.Sorting.Range.{Sorted}
use pageserv.Text.Sort.{string_list_sort}
use pageserv.Text.Sort.Total.{TextLe, string_list_sort-Sorted}
use pageserv.Clib.Decimal.{print_nat}
use pageserv.Tables.Dbm.Assoc.{fetch, keys, assoc, assoc-DbmLaws}
use pageserv.Tables.Users.{parse_user, dump_user}
use pageserv.Tables.Users.RoundTrip.{IsSeparator, Dumpable, listed, parse_user-dump_user}
use pageserv.Tables.Userdb.{
  dbm_open_getuser, dbm_listusers, dbm_getuser, dbm_u_exists, user_or_none, is_some,
}
use pageserv.Tables.Userdb.Listed.{names_at, dbm_listusers-names_at}
use pageserv.Tables.Userdb.Refines.{
  Command, store_user, delete_user, run_all, meanings, run_all-refines,
}
use pageserv.Tables.Load.{dumpuserdb, parseusers}
use pageserv.Tables.Load.Again.{Reloads, store_all}
use pageserv.Tables.Load.Whole.{users_of, parseusers-dumpuserdb}
use pageserv.Text.{kw}
use pageserv.Examples.{dustin, entry}

abbrev texts : List Bytes
texts = codes "q7B" ∷ codes "q7A" ∷ codes "q7AA" ∷ codes "q7B" ∷ []

string_list_sort-Sorted_example :
    (sorted : List Bytes) × (string_list_sort texts ≡ some sorted)
    × Perm texts sorted
    × Sorted TextLe sorted
string_list_sort-Sorted_example = string_list_sort-Sorted texts

abbrev urgent : Queuent
urgent = record entry { priority = pos 5 }

sorts : queuesort (urgent ∷ entry ∷ []) ≡ some (urgent ∷ entry ∷ [])
unfolding queuesort
sorts = refl

queuesort-Sorted_example :
    Perm (urgent ∷ entry ∷ []) (urgent ∷ entry ∷ []) × Sorted InOrder (urgent ∷ entry ∷ [])
queuesort-Sorted_example = queuesort-Sorted (urgent ∷ entry ∷ []) (urgent ∷ entry ∷ []) sorts

abbrev colon : Bytes
colon = b':' ∷ []

colon-IsSeparator : IsSeparator colon
unfolding contains
colon-IsSeparator = record { some_byte = omega arith; newline = refl; digits = λ c h. ground arith }

dustin-Dumpable : Dumpable colon dustin
unfolding contains equal pack_timebits kw
dustin-Dumpable = record {
  name = ((refl, (refl, (refl, (refl, (refl, (refl, tt)))))), refl, omega arith);
  pageid = ((refl, (refl, (refl, (refl, (refl, (refl, (refl, tt))))))), refl, omega arith);
  statid = ((refl, (refl, (refl, tt))), refl, omega arith);
  differs = refl;
  normal = inr (9, 17, omega arith, omega arith, omega arith, omega arith, (omega arith), refl);
}

parse_user-dump_user_example :
    parse_user (dump_user dustin colon) colon false ≡ some (listed dustin)
parse_user-dump_user_example = parse_user-dump_user colon dustin colon-IsSeparator dustin-Dumpable

abbrev commands : List Command
commands = store_user dustin ∷ delete_user (codes "nobody") ∷ []

run_all-refines_example :
    (e : List (Bytes × User)) × (run_all assoc (pos 1) true (some []) commands ≡ some (some e))
    × ((name : Bytes)
        → (dbm_getuser assoc (some e) name
            ≡ some (user_or_none (meanings (pos 1) (assoc.fetch []) commands name)))
          × (dbm_u_exists assoc (some e) name
              ≡ is_some (meanings (pos 1) (assoc.fetch []) commands name)))
run_all-refines_example = run_all-refines assoc assoc-DbmLaws (pos 1) true commands []

abbrev users : List (Bytes × User)
users = (codes "dustin", dustin) ∷ []

dbm_listusers-names_at_example :
    dbm_listusers assoc (pos 2) (some users) (codes "900")
    ≡ some (some (names_at (assoc.fetch users) (codes "900") (assoc.keys users)))
dbm_listusers-names_at_example =
    dbm_listusers-names_at assoc assoc-DbmLaws (pos 2) users (codes "900")

dustin-Reloads : Reloads colon dustin
unfolding print_nat getnormtimes
dustin-Reloads = record {
  dumpable = dustin-Dumpable;
  one_line = (
    refl,
    (
      refl,
      (
        refl,
        (
          refl,
          (
            refl,
            (
              refl,
              (
                refl,
                (
                  refl,
                  (
                    refl,
                    (
                      refl,
                      (
                        refl,
                        (
                          refl,
                          (
                            refl,
                            (
                              refl,
                              (
                                refl,
                                (refl, (refl, (refl, (refl, (refl, (refl, (refl, (refl, tt)))))))),
                              ),
                            ),
                          ),
                        ),
                      ),
                    ),
                  ),
                ),
              ),
            ),
          ),
        ),
      ),
    ),
  );
  short = omega arith;
  entry = refl;
}

abbrev stamp : Bytes
stamp = codes "Thu Nov 26"

stamp-OneLine : OneLine stamp
stamp-OneLine = (refl, (refl, (refl, (refl, (refl, (refl, (refl, (refl, (refl, (refl, tt))))))))))

parseusers-dumpuserdb_example :
    (text : Bytes) × (dumpuserdb assoc (pos 2) (some colon) (line stamp []) (some users)
      ≡ some text)
    × (parseusers assoc (pos 0) true (some colon) (some text) (some [])
        ≡ store_all assoc (pos 0) true colon (users_of assoc users) (some []) 0)
unfolding fetch keys equal dbm_open_getuser
parseusers-dumpuserdb_example =
    parseusers-dumpuserdb assoc assoc-DbmLaws (pos 2) (pos 0) true stamp colon users (some [])
      stamp-OneLine (omega arith) (refl, tt) (omega arith) colon-IsSeparator
      (inr dustin-Reloads, tt)
