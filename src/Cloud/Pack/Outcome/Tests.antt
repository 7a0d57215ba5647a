-- ===== src/Cloud/Pack/Outcome/Tests.antt =====
-- Two polls for outcomes, with two packs that were sent one second after the other.
use mail_chad.Base.{◌≡◌, ◌⊎◌, refl, true, List, [], ◌∷◌, Text, str, In, inl, text_lt, text_eq}
use mail_chad.Cloud.Samples.{sent_pack}
use mail_chad.Cloud.Pack.{Pack}
use mail_chad.Cloud.Pack.Outcome.{
  outcome_key, key_lt, list_resolved_packs, packs_status, read_all, read_partition, partition,
  sort_rows, insert_row,
}
use mail_chad.Cloud.Pack.Outcome.Resume.{Past, packs_status-resumes, packs_status-no_repeat}

abbrev first : Pack
first = sent_pack (str "p1") (str "08:00:01")

abbrev second : Pack
second = sent_pack (str "p2") (str "08:00:02")

abbrev partitions : List (List (List Pack))
partitions = ((second ∷ []) ∷ (first ∷ []) ∷ []) ∷ []

abbrev settled : Text
settled = str "08:05:00"

first_page : packs_status [] 1 settled partitions ≡ (first ∷ [], str "08:00:01#p1")
unfolding packs_status list_resolved_packs read_all read_partition partition sort_rows insert_row
    text_lt text_eq
first_page = refl

second_page :
    packs_status (str "08:00:01#p1") 1 settled partitions ≡ (second ∷ [], str "08:00:02#p2")
unfolding packs_status list_resolved_packs read_all read_partition partition sort_rows insert_row
    text_lt text_eq
second_page = refl

packs_status-resumes_example :
    ((w : Pack) × In w (packs_status [] 1 settled partitions).0
      × (outcome_key w ≡ outcome_key second))
    ⊎ Past (packs_status [] 1 settled partitions).1 second
unfolding packs_status list_resolved_packs read_all read_partition partition sort_rows insert_row
    text_lt text_eq
packs_status-resumes_example =
    packs_status-resumes [] settled 1 partitions second {q = first} refl refl (inl refl)

packs_status-no_repeat_example : key_lt (outcome_key first) (outcome_key second) ≡ true
unfolding packs_status list_resolved_packs read_all read_partition partition sort_rows insert_row
    text_lt text_eq
packs_status-no_repeat_example =
    packs_status-no_repeat [] settled 1 partitions first second {q = first} refl refl refl
      (inl refl) refl
