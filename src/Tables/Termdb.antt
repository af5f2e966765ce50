-- ===== src/Tables/Termdb.antt =====
-- The dbm part of pageserv/termdb.c. The database is `none` where it cannot be opened for reading;
-- `create` says whether dbm_open with O_CREAT would make it.
use pageserv.Base.{◌>>=◌, ℕ, suc, Bool, false, Option, none, some, List, [], ◌∷◌, length, Bytes}
use pageserv.Queue.Types.{Terminal}
use pageserv.Tables.Dbm.{Dbm, dbm_open, erase_keys}
use pageserv.Tables.Terms.{no_terminal}
use pageserv.Tables.Userdb.{add_key, grow, end_list, is_some}

abbrev term_or_none : Option Terminal → Terminal
term_or_none none = no_terminal
term_or_none (some t) = t

-- the loop of dbm_listterms; `none` where the array is left
unfoldable pub list_terms : List Bytes → List Bytes × ℕ → Option (List Bytes × ℕ)
unfolding add_key grow
list_terms [] s = some s
list_terms (k ∷ ks) s = do s1 ← add_key k s; list_terms ks (grow s1)

module _ {D : Type 0} (m : Dbm D Terminal) where
  unfoldable pub dbm_erasetermdb : Option D → Option (Option D)
  unfolding erase_keys
  dbm_erasetermdb none = some none
  dbm_erasetermdb (some d) = do e ← erase_keys m (suc (length (m.keys d))) d; some (some e)

  -- NULL is `none`
  unfoldable pub dbm_listterms : Option D → Option (Option (List Bytes))
  unfolding list_terms end_list
  dbm_listterms none = some none
  dbm_listterms (some d) = do s ← list_terms (m.keys d) ([], 4); ret ← end_list s; some (some ret)

  unfoldable pub dbm_open_storeterm : D → Terminal → D
  dbm_open_storeterm d t = m.store d t.number t

  unfoldable pub dbm_storeterm : Bool → Option D → Terminal → Option D
  unfolding dbm_open dbm_open_storeterm
  dbm_storeterm create db t = do d ← dbm_open m create db; some (dbm_open_storeterm d t)

  unfoldable pub dbm_open_getterm : D → Bytes → Terminal
  dbm_open_getterm d number = term_or_none (m.fetch d number)

  unfoldable pub dbm_getterm : Option D → Bytes → Terminal
  unfolding dbm_open_getterm
  dbm_getterm none number = no_terminal
  dbm_getterm (some d) number = dbm_open_getterm d number

  unfoldable pub dbm_t_exists : Option D → Bytes → Bool
  dbm_t_exists none number = false
  dbm_t_exists (some d) number = is_some (m.fetch d number)
