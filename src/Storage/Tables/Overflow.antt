-- ===== src/Storage/Tables/Overflow.antt =====
-- What the second statement of the retention leaves: the newest of the finished runs.
use microhook.Prelude.{◌≡◌, Text, true, List, contains, All}
use microhook.Storage.Tables.{RunRow, not_older}

abbrev IsListed : List Text → RunRow → Type 0
IsListed ids r = contains ids r.id ≡ true

-- Not older than any of these.
abbrev pub IsNewerThan : List RunRow → RunRow → Type 0
IsNewerThan gone r = All (λ q. not_older r q ≡ true) gone

abbrev itself : RunRow → RunRow
itself r = r
