-- ===== src/Queue/Store/Levels.antt =====
-- The whole of `storequeue`: its two levels, and what becomes of files and log.
use pageserv.Base.{
  ℕ, suc, ◌-◌, ◌≤◌, ◌<◌, ◌≡◌, refl, ◌∙◌, Bool, true, false, Option, some, List, Bytes, pos, All,
  arith, length, codes, lt→ltb,
}
use pageserv.Queue.Types.{Queuent, Env, World}
use pageserv.Queue.Format.{buflen}
use pageserv.Queue.Store.{
  check_time, get_maxlen, too_long, store_now, split_loop, splitsq, storequeue_at, storequeue,
}
use pageserv.Queue.Names.Counter.{IsLetter}
use pageserv.Queue.Store.Wrap.{Wraps, Wraps-fit, store_all, store_all-same, split_loop-Wraps}
use pageserv.Queue.Store.Entry.{Stored, store_now-Stored, store_now-refused}

storequeue_at-short :
    (depth limit : ℕ) (env : Env) (q : Queuent) (quiet : Bool) (w : World)
    → get_maxlen env q ≡ pos limit
    → length q.message ≤ limit
    → storequeue_at (suc depth) env q quiet w ≡ store_now env q quiet w
unfolding storequeue_at too_long
storequeue_at-short depth limit env q quiet w e h = rw e (ground arith)

get_maxlen-message :
    (env : Env) (q : Queuent) (m : Bytes)
    → get_maxlen env (record q { message = m }) ≡ get_maxlen env q
unfolding get_maxlen
get_maxlen-message env q m = refl

splitsq-split_loop :
    (limit : ℕ) (env : Env) (q : Queuent) (store : Bytes → World → Option (ℕ × World)) (w : World)
    → limit < buflen - 1
    → length q.message < buflen
    → splitsq env q (pos limit) store w
      ≡ split_loop (suc (length q.message)) limit store q.message w
unfolding splitsq
splitsq-split_loop limit env q store w h k =
    rw (lt→ltb limit (buflen - 1) h, lt→ltb (length q.message) buflen k) refl

storequeue_at-long :
    (depth limit : ℕ) (env : Env) (q : Queuent) (quiet : Bool) (w : World)
    → get_maxlen env q ≡ pos limit
    → limit < length q.message
    → env.lookup_int (codes "tuning.wrapMessages") ≡ pos 1
    → storequeue_at (suc depth) env q quiet w
      ≡ splitsq env q (pos limit) (λ p. storequeue_at depth env (record q { message = p }) quiet) w
unfolding storequeue_at too_long
storequeue_at-long depth limit env q quiet w e long wrap =
    rw (e, lt→ltb limit (length q.message) long, wrap) refl

storequeue-storequeue_at :
    (env : Env) (q : Queuent) (quiet : Bool) (w : World)
    → storequeue env q quiet w ≡ storequeue_at 2 env q quiet w
unfolding storequeue
storequeue-storequeue_at env q quiet w = refl

-- Where a message is longer than the limit and wrapping is configured, `storequeue` stores the pieces
-- of a wrapping of it, in order, each as an entry of its own, up to the first that is refused. None is
-- longer than the limit; a piece is cut at the last white space before the limit, which is left out, or
-- at the limit, where nothing but its first byte is white space. The limit is positive and below 1023,
-- and the message fits its buffer.
pub storequeue-Wraps :
    (limit : ℕ) (env : Env) (q : Queuent) (quiet : Bool)
    → get_maxlen env q ≡ pos limit
    → 0 < limit
    → limit < buflen - 1
    → limit < length q.message
    → length q.message < buflen
    → env.lookup_int (codes "tuning.wrapMessages") ≡ pos 1
    → (ps : List Bytes) × Wraps limit q.message ps
      × ((w : World)
          → storequeue env q quiet w
            ≡ store_all (λ p. store_now env (record q { message = p }) quiet) ps w)
storequeue-Wraps limit env q quiet e lo hi long fits wrap =
    let (ps, wraps, same) =
      split_loop-Wraps (suc (length q.message)) limit q.message lo (omega arith) in
    let store = λ (p : Bytes). storequeue_at 1 env (record q { message = p }) quiet in
    (
      ps,
      wraps,
      λ w.
          storequeue-storequeue_at env q quiet w
          ∙ storequeue_at-long 1 limit env q quiet w e long wrap
          ∙ splitsq-split_loop limit env q store w hi fits
          ∙ same store w
          ∙ store_all-same limit store (λ p. store_now env (record q { message = p }) quiet) ps w
              (Wraps-fit wraps)
              (λ p h w.
                storequeue_at-short 0 limit env (record q { message = p }) quiet w
                  (get_maxlen-message env q p ∙ e) h),
    )

storequeue-store_now :
    (env : Env) (q : Queuent) (quiet : Bool) (w : World)
    → too_long (get_maxlen env q) q.message ≡ false
    → storequeue env q quiet w ≡ store_now env q quiet w
unfolding storequeue storequeue_at
storequeue-store_now env q quiet w h = rw h refl

-- A message within the limit is stored, at a time that its recipient takes, with result 0 in one new
-- file, whose name no file had: all other files stay, no mail is sent, and the log gets one line.
pub storequeue-Stored :
    (env : Env) (q : Queuent) (quiet : Bool) (w : World)
    → All IsLetter w.tmp
    → too_long (get_maxlen env q) q.message ≡ false
    → check_time env q ≡ true
    → (path : Bytes) × (w' : World) × (storequeue env q quiet w ≡ some (0, w'))
      × Stored env q w w' path
storequeue-Stored env q quiet w letters short on =
    let (path, w', stored, good) = store_now-Stored env q quiet w letters on in
    (path, w', storequeue-store_now env q quiet w short ∙ stored, good)

-- At a time that its recipient does not take, a message within the limit is refused with result 1, and
-- files, log, mail and the name counter stay as they are.
pub storequeue-refused :
    (env : Env) (q : Queuent) (quiet : Bool) (w : World)
    → too_long (get_maxlen env q) q.message ≡ false
    → check_time env q ≡ false
    → (w' : World) × (storequeue env q quiet w ≡ some (1, w'))
      × (w'.files ≡ w.files)
      × (w'.log ≡ w.log)
      × (w'.mail ≡ w.mail)
      × (w'.tmp ≡ w.tmp)
storequeue-refused env q quiet w short off =
    let (w', e, files, log, mail, tmp) = store_now-refused env q quiet w off in
    (w', storequeue-store_now env q quiet w short ∙ e, files, log, mail, tmp)
