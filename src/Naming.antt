-- ===== src/Naming.antt =====
-- naming.js: the names under which nodes meet.
use dacar.Common.{List, [], ◌∷◌, Text, codes}

abbrev pub app_name : Text
app_name = codes "dacar"

abbrev pub challenge_aspects : List Text
challenge_aspects = codes "auth" ∷ codes "v1" ∷ []

abbrev pub challenge_destination : Text
challenge_destination = codes "dacar.auth.v1"

abbrev pub sync_aspects : List Text
sync_aspects = codes "sync" ∷ codes "v1" ∷ []

abbrev pub sync_destination : Text
sync_destination = codes "dacar.sync.v1"

abbrev pub rfed_topic : Text
rfed_topic = codes "dacar.policy.v1"

abbrev pub lxmf_delivery_title : Text
lxmf_delivery_title = codes "dacar/sync/delta"

abbrev pub lxmf_batch_title : Text
lxmf_batch_title = codes "dacar/sync/batch"
