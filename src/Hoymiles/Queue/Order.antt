-- ===== src/Hoymiles/Queue/Order.antt =====
-- The order of the queue: commands of high priority first.
use flux_dtu.Base.{
  ◌+◌, ◌≤◌, ◌≡◌, refl, Bool, true, false, ◌&&◌, ◌||◌, not, List, [], ◌∷◌, arith, if◌then◌else◌,
}
use flux_dtu.Hoymiles.Command.{Command, is_high_priority}
use flux_dtu.Hoymiles.Queue.{remove_if, count_if, push, insert_by_priority}

abbrev pub all_low : List Command → Bool
all_low [] = true
all_low (c ∷ cs) = not (is_high_priority c.kind) && all_low cs

-- No command of high priority stands behind another.
abbrev pub is_ordered : List Command → Bool
is_ordered [] = true
is_ordered (c ∷ cs) = (is_high_priority c.kind || all_low cs) && is_ordered cs

all_low-remove_if :
    (p : Command → Bool) (queue : List Command)
    → all_low queue ≡ true
    → all_low (remove_if p queue).0 ≡ true
unfolding remove_if
all_low-remove_if p [] h = refl
all_low-remove_if p (c ∷ cs) h = ground (arith, all_low-remove_if p cs)

pub is_ordered-remove_if :
    (p : Command → Bool) (queue : List Command)
    → is_ordered queue ≡ true
    → is_ordered (remove_if p queue).0 ≡ true
unfolding remove_if
is_ordered-remove_if p [] h = refl
is_ordered-remove_if p (c ∷ cs) h =
    ground (arith, is_ordered-remove_if p cs, all_low-remove_if p cs)

all_low-push :
    (cmd : Command) (queue : List Command)
    → is_high_priority cmd.kind ≡ false
    → all_low queue ≡ true
    → all_low (push cmd queue) ≡ true
unfolding push
all_low-push cmd [] p h = ground arith
all_low-push cmd (c ∷ cs) p h = ground (arith, all_low-push cmd cs p)

pub is_ordered-push :
    (cmd : Command) (queue : List Command)
    → is_high_priority cmd.kind ≡ false
    → is_ordered queue ≡ true
    → is_ordered (push cmd queue) ≡ true
unfolding push
is_ordered-push cmd [] p h = ground arith
is_ordered-push cmd (c ∷ cs) p h = ground (arith, is_ordered-push cmd cs p, all_low-push cmd cs p)

pub is_ordered-insert_by_priority :
    (cmd : Command) (queue : List Command)
    → is_high_priority cmd.kind ≡ true
    → is_ordered queue ≡ true
    → is_ordered (insert_by_priority cmd queue) ≡ true
unfolding insert_by_priority
is_ordered-insert_by_priority cmd [] p h = ground arith
is_ordered-insert_by_priority cmd (c ∷ cs) p h =
    ground (arith, is_ordered-insert_by_priority cmd cs p)

-- the same for the number of commands
pub count_if-push :
    (p : Command → Bool) (cmd : Command) (queue : List Command)
    → count_if p (push cmd queue) ≡ count_if p queue + (if p cmd then 1 else 0)
unfolding push count_if
count_if-push p cmd [] = ground arith
count_if-push p cmd (c ∷ cs) = ground (arith, count_if-push p cmd cs)

pub count_if-insert_by_priority :
    (p : Command → Bool) (cmd : Command) (queue : List Command)
    → count_if p (insert_by_priority cmd queue) ≡ count_if p queue + (if p cmd then 1 else 0)
unfolding insert_by_priority count_if
count_if-insert_by_priority p cmd [] = ground arith
count_if-insert_by_priority p cmd (c ∷ cs) = ground (arith, count_if-insert_by_priority p cmd cs)

-- Of the commands for which `p` holds none is left, and any others all are.
pub count_if-remove_if :
    (p q : Command → Bool) (queue : List Command)
    → ((c : Command) → p c ≡ true → q c ≡ false)
    → (count_if p (remove_if p queue).0 ≡ 0) × (count_if q (remove_if p queue).0 ≡ count_if q queue)
unfolding remove_if count_if
count_if-remove_if p q [] h = (refl, refl)
count_if-remove_if p q (c ∷ cs) h = ground (arith, h c, count_if-remove_if p q cs h)

pub count_if_mono :
    (p q : Command → Bool) (queue : List Command)
    → ((c : Command) → p c ≡ true → q c ≡ true)
    → count_if p queue ≤ count_if q queue
unfolding count_if
count_if_mono p q [] h = omega arith
count_if_mono p q (c ∷ cs) h = ground (arith, h c, count_if_mono p q cs h)
