-- ===== src/Codegen/Formats.antt =====
-- internal/codegen/formats.go: the regular expressions of the formats, and their flags.
use tsgonest.Common.{String, [], ◌∷◌}
use tsgonest.Common.Texts.{◌<>◌}
use tsgonest.Common.Maps.{Map}

abbrev regex_byte : String
regex_byte = "^(?:[A-Za-z0-9+/]{4})*(?:[A-Za-z0-9+/]{2}==|[A-Za-z0-9+/]{3}=)?$"

abbrev regex_password : String
regex_password = ""

abbrev regex_regex : String
regex_regex = ""

abbrev regex_uuid : String
regex_uuid = "^(?:urn:uuid:)?[0-9a-f]{8}-(?:[0-9a-f]{4}-){3}[0-9a-f]{12}$"

abbrev regex_email : String
regex_email =
    "^[a-z0-9!#$%&'*+/=?^_`{|}~-]+(?:\\.[a-z0-9!#$%&'*+/=?^_`{|}~-]+)*@(?:[a-z0-9](?:[a-z"
    <> "0-9-]*[a-z0-9])?\\.)+[a-z0-9](?:[a-z0-9-]*[a-z0-9])?$"

abbrev regex_hostname : String
regex_hostname =
    "^(?=.{1,253}\\.?$)[a-z0-9](?:[a-z0-9-]{0,61}[a-z0-9])?(?:\\.[a-z0-9](?:[-0-9a-z]{0,6"
    <> "1}[0-9a-z])?)*\\.?$"

abbrev regex_idn_email : String
regex_idn_email =
    "^(([^<>()\\[\\]\\\\.,;:\\s@\"]+(\\.[^<>()\\[\\]\\\\.,;:\\s@\"]+)*)|(\".+\"))@((\\[[0"
    <> "-9]{1,3}\\.[0-9]{1,3}\\.[0-9]{1,3}\\.[0-9]{1,3}])|(([a-zA-Z\\-0-9]+\\.)+[a-zA-Z]{2,}"
    <> "))$"

abbrev regex_idn_hostname : String
regex_idn_hostname =
    "^([a-z0-9\\u00a1-\\uffff]([a-z0-9\\u00a1-\\uffff-]*[a-z0-9\\u00a1-\\uffff])?\\.)+[a-"
    <> "z\\u00a1-\\uffff]{2,}$"

abbrev regex_iri : String
regex_iri = "^[A-Za-z][\\d+\\-.A-Za-z]*:[^\\u0000-\\u0020\"<>\\\\^`{|}]*$"

abbrev regex_iri_reference : String
regex_iri_reference = "^[A-Za-z][\\d+\\-.A-Za-z]*:[^\\u0000-\\u0020\"<>\\\\^`{|}]*$"

abbrev regex_ipv4 : String
regex_ipv4 =
    "^(?:(?:25[0-5]|2[0-4]\\d|1\\d\\d|[1-9]?\\d)\\.){3}(?:25[0-5]|2[0-4]\\d|1\\d\\d|[1-9]"
    <> "?\\d)$"

abbrev regex_ipv6 : String
regex_ipv6 =
    "^((([0-9a-f]{1,4}:){7}([0-9a-f]{1,4}|:))|(([0-9a-f]{1,4}:){6}(:[0-9a-f]{1,4}|((25[0-"
    <> "5]|2[0-4]\\d|1?\\d\\d?)(\\.(25[0-5]|2[0-4]\\d|1?\\d\\d?)){3})|:))|(([0-9a-f]{1,4}:){"
    <> "5}(((:[0-9a-f]{1,4}){1,2})|:((25[0-5]|2[0-4]\\d|1?\\d\\d?)(\\.(25[0-5]|2[0-4]\\d|1?"
    <> "\\d\\d?)){3})|:))|(([0-9a-f]{1,4}:){4}(((:[0-9a-f]{1,4}){1,3})|((:[0-9a-f]{1,4})?:(("
    <> "25[0-5]|2[0-4]\\d|1?\\d\\d?)(\\.(25[0-5]|2[0-4]\\d|1?\\d\\d?)){3}))|:))|(([0-9a-f]{1"
    <> ",4}:){3}(((:[0-9a-f]{1,4}){1,4})|((:[0-9a-f]{1,4}){0,2}:((25[0-5]|2[0-4]\\d|1?\\d\\d"
    <> "?)(\\.(25[0-5]|2[0-4]\\d|1?\\d\\d?)){3}))|:))|(([0-9a-f]{1,4}:){2}(((:[0-9a-f]{1,4})"
    <> "{1,5})|((:[0-9a-f]{1,4}){0,3}:((25[0-5]|2[0-4]\\d|1?\\d\\d?)(\\.(25[0-5]|2[0-4]\\d|1"
    <> "?\\d\\d?)){3}))|:))|(([0-9a-f]{1,4}:){1}(((:[0-9a-f]{1,4}){1,6})|((:[0-9a-f]{1,4}){0"
    <> ",4}:((25[0-5]|2[0-4]\\d|1?\\d\\d?)(\\.(25[0-5]|2[0-4]\\d|1?\\d\\d?)){3}))|:))|(:(((:"
    <> "[0-9a-f]{1,4}){1,7})|((:[0-9a-f]{1,4}){0,5}:((25[0-5]|2[0-4]\\d|1?\\d\\d?)(\\.(25[0-"
    <> "5]|2[0-4]\\d|1?\\d\\d?)){3}))|:)))$"

abbrev regex_url : String
regex_url = "^(?:https?|ftp):\\/\\/[^\\s/$.?#].[^\\s]*$"

abbrev regex_uri : String
regex_uri = "^[A-Za-z][\\d+\\-.A-Za-z]*:[^\\s]*$"

abbrev regex_uri_reference : String
regex_uri_reference = "^(?:[A-Za-z][\\d+\\-.A-Za-z]*:)?(?:\\/\\/[^\\s/]*)?[^\\s]*$"

abbrev regex_uri_template : String
regex_uri_template =
    "^(?:(?:[^\\x00-\\x20\"'<>%\\\\^`{|}]|%[0-9a-f]{2})|\\{[+#./;?&=,!@|]?(?:[a-z0-9_]|%["
    <> "0-9a-f]{2})+(?::[1-9][0-9]{0,3}|\\*)?(?:,(?:[a-z0-9_]|%[0-9a-f]{2})+(?::[1-9][0-9]{0"
    <> ",3}|\\*)?)*\\})*$"

abbrev regex_date_time : String
regex_date_time =
    "^[0-9]{4}-(0[1-9]|1[0-2])-(0[1-9]|[12][0-9]|3[01])(T|\\s)([01][0-9]|2[0-3]):[0-5][0-"
    <> "9]:[0-5][0-9](?:\\.[0-9]{1,9})?(Z|[+-]([01][0-9]|2[0-3]):[0-5][0-9])$"

abbrev regex_date : String
regex_date = "^[0-9]{4}-(0[1-9]|1[0-2])-(0[1-9]|[12][0-9]|3[01])$"

abbrev regex_time : String
regex_time =
    "^([01][0-9]|2[0-3]):[0-5][0-9]:[0-5][0-9](?:\\.[0-9]{1,9})?(Z|[+-]([01][0-9]|2[0-3])"
    <> ":[0-5][0-9])$"

abbrev regex_duration : String
regex_duration = "^P(?!$)((\\d+Y)?(\\d+M)?(\\d+D)?(T(?=\\d)(\\d+H)?(\\d+M)?(\\d+S)?)?|(\\d+W)?)$"

abbrev regex_json_pointer : String
regex_json_pointer = "^(?:\\/(?:[^~/]|~0|~1)*)*$"

abbrev regex_relative_json_pointer : String
regex_relative_json_pointer = "^(?:0|[1-9][0-9]*)(?:#|(?:\\/(?:[^~/]|~0|~1)*)*)$"

abbrev regex_nanoid : String
regex_nanoid = "^[A-Za-z0-9_-]{21}$"

abbrev regex_cuid : String
regex_cuid = "^c[a-z0-9]{24}$"

abbrev regex_cuid2 : String
regex_cuid2 = "^[a-z][a-z0-9]{23,}$"

abbrev regex_ulid : String
regex_ulid = "^[0-9A-HJKMNP-TV-Z]{26}$"

abbrev regex_jwt : String
regex_jwt = "^[A-Za-z0-9_-]+\\.[A-Za-z0-9_-]+\\.[A-Za-z0-9_-]*$"

abbrev regex_base64url : String
regex_base64url = "^[A-Za-z0-9_-]*=?=?$"

abbrev regex_hex : String
regex_hex = "^[0-9a-fA-F]+$"

abbrev regex_mac : String
regex_mac = "^(?:[0-9A-Fa-f]{2}[:-]){5}[0-9A-Fa-f]{2}$"

abbrev regex_cidrv4 : String
regex_cidrv4 =
    "^(?:(?:25[0-5]|2[0-4]\\d|1\\d\\d|[1-9]?\\d)\\.){3}(?:25[0-5]|2[0-4]\\d|1\\d\\d|[1-9]"
    <> "?\\d)\\/(?:3[0-2]|[12]?\\d)$"

abbrev regex_cidrv6 : String
regex_cidrv6 =
    "^(([0-9a-f]{1,4}:){7}[0-9a-f]{1,4}|([0-9a-f]{1,4}:){1,7}:|([0-9a-f]{1,4}:){1,6}:[0-9"
    <> "a-f]{1,4}|([0-9a-f]{1,4}:){1,5}(:[0-9a-f]{1,4}){1,2}|([0-9a-f]{1,4}:){1,4}(:[0-9a-f]"
    <> "{1,4}){1,3}|([0-9a-f]{1,4}:){1,3}(:[0-9a-f]{1,4}){1,4}|([0-9a-f]{1,4}:){1,2}(:[0-9a-"
    <> "f]{1,4}){1,5}|[0-9a-f]{1,4}:((:[0-9a-f]{1,4}){1,6})|:((:[0-9a-f]{1,4}){1,7}|:)|fe80:"
    <> "(:[0-9a-f]{0,4}){0,4}%[0-9a-zA-Z]+|::(ffff(:0{1,4})?:)?((25[0-5]|(2[0-4]|1?[0-9])?[0"
    <> "-9])\\.){3}(25[0-5]|(2[0-4]|1?[0-9])?[0-9])|([0-9a-f]{1,4}:){1,4}:((25[0-5]|(2[0-4]|"
    <> "1?[0-9])?[0-9])\\.){3}(25[0-5]|(2[0-4]|1?[0-9])?[0-9]))\\/(?:12[0-8]|1[01]\\d|[1-9]?"
    <> "\\d)$"

abbrev regex_emoji : String
regex_emoji = "^(\\p{Emoji_Presentation}|\\p{Extended_Pictographic})+$"

-- `formatRegexes`.
unfoldable pub format_regexes : Map String
format_regexes =
    ("byte", regex_byte)
    ∷ ("password", regex_password)
    ∷ ("regex", regex_regex)
    ∷ ("uuid", regex_uuid)
    ∷ ("email", regex_email)
    ∷ ("hostname", regex_hostname)
    ∷ ("idn-email", regex_idn_email)
    ∷ ("idn-hostname", regex_idn_hostname)
    ∷ ("iri", regex_iri)
    ∷ ("iri-reference", regex_iri_reference)
    ∷ ("ipv4", regex_ipv4)
    ∷ ("ipv6", regex_ipv6)
    ∷ ("url", regex_url)
    ∷ ("uri", regex_uri)
    ∷ ("uri-reference", regex_uri_reference)
    ∷ ("uri-template", regex_uri_template)
    ∷ ("date-time", regex_date_time)
    ∷ ("date", regex_date)
    ∷ ("time", regex_time)
    ∷ ("duration", regex_duration)
    ∷ ("json-pointer", regex_json_pointer)
    ∷ ("relative-json-pointer", regex_relative_json_pointer)
    ∷ ("nanoid", regex_nanoid)
    ∷ ("cuid", regex_cuid)
    ∷ ("cuid2", regex_cuid2)
    ∷ ("ulid", regex_ulid)
    ∷ ("jwt", regex_jwt)
    ∷ ("base64url", regex_base64url)
    ∷ ("hex", regex_hex)
    ∷ ("mac", regex_mac)
    ∷ ("cidrv4", regex_cidrv4)
    ∷ ("cidrv6", regex_cidrv6)
    ∷ ("emoji", regex_emoji)
    ∷ []

-- `formatFlags`.
unfoldable pub format_flags : Map String
format_flags =
    ("uuid", "i")
    ∷ ("email", "i")
    ∷ ("hostname", "i")
    ∷ ("idn-hostname", "i")
    ∷ ("date-time", "i")
    ∷ ("time", "i")
    ∷ ("uri-template", "i")
    ∷ ("ipv6", "i")
    ∷ ("url", "i")
    ∷ ("cidrv6", "i")
    ∷ ("hex", "i")
    ∷ ("mac", "i")
    ∷ ("emoji", "u")
    ∷ []
