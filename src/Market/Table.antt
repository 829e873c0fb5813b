-- ===== src/Market/Table.antt =====
-- The pairs of `ALL` in src/domain/market.rs, in the source's order.
use risq.Base.{String, List, [], ◌∷◌}

unfoldable pub pairs_one : List (String × String)
pairs_one =
    ("ACM", "BTC")
    ∷ ("ADE", "BTC")
    ∷ ("AEON", "BTC")
    ∷ ("AEUR", "BTC")
    ∷ ("AMIT", "BTC")
    ∷ ("ANI", "BTC")
    ∷ ("ARQ", "BTC")
    ∷ ("ASK", "BTC")
    ∷ ("AUS", "BTC")
    ∷ ("BEAM", "BTC")
    ∷ ("BLUR", "BTC")
    ∷ ("BLK-BURNT", "BTC")
    ∷ ("BSQ", "BTC")
    ∷ ("BTC", "AED")
    ∷ ("BTC", "AFN")
    ∷ ("BTC", "ALL")
    ∷ ("BTC", "AMD")
    ∷ ("BTC", "ANG")
    ∷ ("BTC", "AOA")
    ∷ ("BTC", "ARS")
    ∷ ("BTC", "AUD")
    ∷ ("BTC", "AWG")
    ∷ ("BTC", "AZN")
    ∷ ("BTC", "BAM")
    ∷ ("BTC", "BBD")
    ∷ ("BTC", "BDT")
    ∷ ("BTC", "BGN")
    ∷ ("BTC", "BHD")
    ∷ ("BTC", "BIF")
    ∷ ("BTC", "BMD")
    ∷ ("BTC", "BND")
    ∷ ("BTC", "BOB")
    ∷ ("BTC", "BRL")
    ∷ ("BTC", "BSD")
    ∷ ("BTC", "BTN")
    ∷ ("BTC", "BWP")
    ∷ ("BTC", "BYN")
    ∷ ("BTC", "BZD")
    ∷ ("BTC", "CAD")
    ∷ ("BTC", "CDF")
    ∷ ("BTC", "CHF")
    ∷ ("BTC", "CLP")
    ∷ ("BTC", "CNY")
    ∷ ("BTC", "COP")
    ∷ ("BTC", "CRC")
    ∷ ("BTC", "CUP")
    ∷ ("BTC", "CVE")
    ∷ ("BTC", "CZK")
    ∷ ("BTC", "DJF")
    ∷ ("BTC", "DKK")
    ∷ ("BTC", "DOP")
    ∷ ("BTC", "DZD")
    ∷ ("BTC", "EGP")
    ∷ ("BTC", "ERN")
    ∷ ("BTC", "ETB")
    ∷ ("BTC", "EUR")
    ∷ ("BTC", "FJD")
    ∷ ("BTC", "FKP")
    ∷ ("BTC", "GBP")
    ∷ ("BTC", "GEL")
    ∷ ("BTC", "GHS")
    ∷ ("BTC", "GIP")
    ∷ ("BTC", "GMD")
    ∷ ("BTC", "GNF")
    ∷ ("BTC", "GTQ")
    ∷ ("BTC", "GYD")
    ∷ ("BTC", "HKD")
    ∷ ("BTC", "HNL")
    ∷ ("BTC", "HRK")
    ∷ ("BTC", "HTG")
    ∷ ("BTC", "HUF")
    ∷ ("BTC", "IDR")
    ∷ ("BTC", "ILS")
    ∷ ("BTC", "INR")
    ∷ ("BTC", "IQD")
    ∷ ("BTC", "IRR")
    ∷ ("BTC", "ISK")
    ∷ ("BTC", "JMD")
    ∷ ("BTC", "JOD")
    ∷ ("BTC", "JPY")
    ∷ ("BTC", "KES")
    ∷ ("BTC", "KGS")
    ∷ ("BTC", "KHR")
    ∷ ("BTC", "KMF")
    ∷ ("BTC", "KPW")
    ∷ ("BTC", "KRW")
    ∷ ("BTC", "KWD")
    ∷ ("BTC", "KYD")
    ∷ ("BTC", "KZT")
    ∷ ("BTC", "LAK")
    ∷ ("BTC", "LBP")
    ∷ ("BTC", "LKR")
    ∷ ("BTC", "LRD")
    ∷ ("BTC", "LSL")
    ∷ ("BTC", "LYD")
    ∷ ("BTC", "MAD")
    ∷ ("BTC", "MDL")
    ∷ ("BTC", "MGA")
    ∷ ("BTC", "MKD")
    ∷ ("BTC", "MMK")
    ∷ ("BTC", "MNT")
    ∷ ("BTC", "MOP")
    ∷ ("BTC", "MRO")
    ∷ ("BTC", "MUR")
    ∷ ("BTC", "MVR")
    ∷ ("BTC", "MWK")
    ∷ ("BTC", "MXN")
    ∷ ("BTC", "MYR")
    ∷ ("BTC", "MZN")
    ∷ ("BTC", "NAD")
    ∷ ("BTC", "NGN")
    ∷ ("BTC", "NIO")
    ∷ ("BTC", "NOK")
    ∷ ("BTC", "NPR")
    ∷ ("BTC", "NZD")
    ∷ ("BTC", "OMR")
    ∷ ("BTC", "PAB")
    ∷ ("BTC", "PEN")
    ∷ ("BTC", "PGK")
    ∷ ("BTC", "PHP")
    ∷ ("BTC", "PKR")
    ∷ ("BTC", "PLN")
    ∷ ("BTC", "PYG")
    ∷ ("BTC", "QAR")
    ∷ ("BTC", "RON")
    ∷ ("BTC", "RSD")
    ∷ ("BTC", "RUB")
    ∷ ("BTC", "RWF")
    ∷ ("BTC", "SAR")
    ∷ ("BTC", "SBD")
    ∷ ("BTC", "SCR")
    ∷ ("BTC", "SDG")
    ∷ ("BTC", "SEK")
    ∷ ("BTC", "SGD")
    ∷ ("BTC", "SHP")
    ∷ ("BTC", "SLL")
    ∷ ("BTC", "SOS")
    ∷ ("BTC", "SRD")
    ∷ ("BTC", "SSP")
    ∷ []

unfoldable pub pairs_two : List (String × String)
pairs_two =
    ("BTC", "STN")
    ∷ ("BTC", "SVC")
    ∷ ("BTC", "SYP")
    ∷ ("BTC", "SZL")
    ∷ ("BTC", "THB")
    ∷ ("BTC", "TJS")
    ∷ ("BTC", "TMT")
    ∷ ("BTC", "TND")
    ∷ ("BTC", "TOP")
    ∷ ("BTC", "TRY")
    ∷ ("BTC", "TTD")
    ∷ ("BTC", "TWD")
    ∷ ("BTC", "TZS")
    ∷ ("BTC", "UAH")
    ∷ ("BTC", "UGX")
    ∷ ("BTC", "USD")
    ∷ ("BTC", "UYU")
    ∷ ("BTC", "UZS")
    ∷ ("BTC", "VEF")
    ∷ ("BTC", "VND")
    ∷ ("BTC", "VUV")
    ∷ ("BTC", "WST")
    ∷ ("BTC", "XAF")
    ∷ ("BTC", "XCD")
    ∷ ("BTC", "XOF")
    ∷ ("BTC", "XPF")
    ∷ ("BTC", "YER")
    ∷ ("BTC", "ZAR")
    ∷ ("BTC", "ZMW")
    ∷ ("BTC", "ZWL")
    ∷ ("BTM", "BTC")
    ∷ ("BZC", "BTC")
    ∷ ("CASH2", "BTC")
    ∷ ("CTSC", "BTC")
    ∷ ("CHA", "BTC")
    ∷ ("CLOAK", "BTC")
    ∷ ("CRCL", "BTC")
    ∷ ("CRDS", "BTC")
    ∷ ("CROAT", "BTC")
    ∷ ("DAI", "BTC")
    ∷ ("DARX", "BTC")
    ∷ ("DASH", "BTC")
    ∷ ("D4RK", "BTC")
    ∷ ("DCR", "BTC")
    ∷ ("DOGE", "BTC")
    ∷ ("DONU", "BTC")
    ∷ ("DOI", "BTC")
    ∷ ("DRGL", "BTC")
    ∷ ("DST", "BTC")
    ∷ ("DXO", "BTC")
    ∷ ("ETC", "BTC")
    ∷ ("ETH", "BTC")
    ∷ ("ETHS", "BTC")
    ∷ ("EMC", "BTC")
    ∷ ("ERG", "BTC")
    ∷ ("FAIR", "BTC")
    ∷ ("FJC", "BTC")
    ∷ ("FRTY", "BTC")
    ∷ ("GALI", "BTC")
    ∷ ("GBYTE", "BTC")
    ∷ ("GENX", "BTC")
    ∷ ("GMCN", "BTC")
    ∷ ("GRIN", "BTC")
    ∷ ("HATCH", "BTC")
    ∷ ("HLM", "BTC")
    ∷ ("IDA", "BTC")
    ∷ ("IRD", "BTC")
    ∷ ("KEK", "BTC")
    ∷ ("KORE", "BTC")
    ∷ ("KYDC", "BTC")
    ∷ ("LBC", "BTC")
    ∷ ("LCP", "BTC")
    ∷ ("LTC", "BTC")
    ∷ ("LTZ", "BTC")
    ∷ ("LYTX", "BTC")
    ∷ ("MAI", "BTC")
    ∷ ("MASK", "BTC")
    ∷ ("MBGL", "BTC")
    ∷ ("MILE", "BTC")
    ∷ ("MOX", "BTC")
    ∷ ("MQX", "BTC")
    ∷ ("MSR", "BTC")
    ∷ ("MUE", "BTC")
    ∷ ("NAV", "BTC")
    ∷ ("NEOS", "BTC")
    ∷ ("NMC", "BTC")
    ∷ ("NOR", "BTC")
    ∷ ("NTBC", "BTC")
    ∷ ("ONION", "BTC")
    ∷ ("PARS", "BTC")
    ∷ ("PART", "BTC")
    ∷ ("PENG", "BTC")
    ∷ ("PINK", "BTC")
    ∷ ("PIVX", "BTC")
    ∷ ("PLE", "BTC")
    ∷ ("PRSN", "BTC")
    ∷ ("PZDC", "BTC")
    ∷ ("QBS", "BTC")
    ∷ ("QMCoin", "BTC")
    ∷ ("QWC", "BTC")
    ∷ ("RADS", "BTC")
    ∷ ("RDD", "BTC")
    ∷ ("RMX", "BTC")
    ∷ ("RYO", "BTC")
    ∷ ("SCP", "BTC")
    ∷ ("SF", "BTC")
    ∷ ("SIL", "BTC")
    ∷ ("SPACE", "BTC")
    ∷ ("SUB1X", "BTC")
    ∷ ("TEO", "BTC")
    ∷ ("TRTL", "BTC")
    ∷ ("TUSD", "BTC")
    ∷ ("UCC", "BTC")
    ∷ ("UNO", "BTC")
    ∷ ("USDC", "BTC")
    ∷ ("USDH", "BTC")
    ∷ ("UPX", "BTC")
    ∷ ("VARIUS", "BTC")
    ∷ ("VEIL", "BTC")
    ∷ ("VTC", "BTC")
    ∷ ("VXV", "BTC")
    ∷ ("WEB", "BTC")
    ∷ ("WRKZ", "BTC")
    ∷ ("WORX", "BTC")
    ∷ ("XCP", "BTC")
    ∷ ("XDR0", "BTC")
    ∷ ("XND", "BTC")
    ∷ ("XMR", "BTC")
    ∷ ("XRC", "BTC")
    ∷ ("XSL", "BTC")
    ∷ ("XSPEC", "BTC")
    ∷ ("XZC", "BTC")
    ∷ ("YCE", "BTC")
    ∷ ("ZEC", "BTC")
    ∷ ("ZEL", "BTC")
    ∷ ("ZEN", "BTC")
    ∷ ("ZER", "BTC")
    ∷ ("ZERC", "BTC")
    ∷ ("ZOD", "BTC")
    ∷ []
