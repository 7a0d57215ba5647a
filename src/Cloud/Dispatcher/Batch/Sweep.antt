-- ===== src/Cloud/Dispatcher/Batch/Sweep.antt =====
-- What one sweep puts on the queue and what it reports.
use mail_chad.Base.{◌≡◌, Bool, true, List, [], ◌∷◌, Text, text_le, In, if◌then◌else◌}
use mail_chad.Base.Table.{Table}
use mail_chad.Cloud.Pack.{Pack}

-- The ids that SQS takes, in order.
abbrev pub taken : (takes : Text → Bool) → List Pack → List Text
taken takes [] = []
taken takes (p ∷ ps) =
    let rest = taken takes ps in if takes p.pack_id then p.pack_id ∷ rest else rest

-- A pack that was listed, and due.
abbrev pub Due : (now : Text) → (indexed : List Pack) → Pack → Type 0
Due now indexed p = In p indexed × (text_le p.send_at now ≡ true)
