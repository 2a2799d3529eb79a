-- ===== src/Wire/Keys.antt =====
-- The physical key table of src/botster/generated/terminal-protocol.ts, and `terminalKeyFromCode`.
use botster_web.Common.{
  ℕ, String, Bool, false, Option, none, some, ◌||◌, ◌==◌, if◌then◌else◌, List, [], ◌∷◌, string_eq,
}
use botster_web.Common.Maps.{lookup}

unfoldable pub terminal_key : List (String × ℕ)
terminal_key =
    ("Unidentified", 0)
    ∷ ("Backquote", 1)
    ∷ ("Backslash", 2)
    ∷ ("BracketLeft", 3)
    ∷ ("BracketRight", 4)
    ∷ ("Comma", 5)
    ∷ ("Digit0", 6)
    ∷ ("Digit1", 7)
    ∷ ("Digit2", 8)
    ∷ ("Digit3", 9)
    ∷ ("Digit4", 10)
    ∷ ("Digit5", 11)
    ∷ ("Digit6", 12)
    ∷ ("Digit7", 13)
    ∷ ("Digit8", 14)
    ∷ ("Digit9", 15)
    ∷ ("Equal", 16)
    ∷ ("IntlBackslash", 17)
    ∷ ("IntlRo", 18)
    ∷ ("IntlYen", 19)
    ∷ ("KeyA", 20)
    ∷ ("KeyB", 21)
    ∷ ("KeyC", 22)
    ∷ ("KeyD", 23)
    ∷ ("KeyE", 24)
    ∷ ("KeyF", 25)
    ∷ ("KeyG", 26)
    ∷ ("KeyH", 27)
    ∷ ("KeyI", 28)
    ∷ ("KeyJ", 29)
    ∷ ("KeyK", 30)
    ∷ ("KeyL", 31)
    ∷ ("KeyM", 32)
    ∷ ("KeyN", 33)
    ∷ ("KeyO", 34)
    ∷ ("KeyP", 35)
    ∷ ("KeyQ", 36)
    ∷ ("KeyR", 37)
    ∷ ("KeyS", 38)
    ∷ ("KeyT", 39)
    ∷ ("KeyU", 40)
    ∷ ("KeyV", 41)
    ∷ ("KeyW", 42)
    ∷ ("KeyX", 43)
    ∷ ("KeyY", 44)
    ∷ ("KeyZ", 45)
    ∷ ("Minus", 46)
    ∷ ("Period", 47)
    ∷ ("Quote", 48)
    ∷ ("Semicolon", 49)
    ∷ ("Slash", 50)
    ∷ ("AltLeft", 51)
    ∷ ("AltRight", 52)
    ∷ ("Backspace", 53)
    ∷ ("CapsLock", 54)
    ∷ ("ContextMenu", 55)
    ∷ ("ControlLeft", 56)
    ∷ ("ControlRight", 57)
    ∷ ("Enter", 58)
    ∷ ("MetaLeft", 59)
    ∷ ("MetaRight", 60)
    ∷ ("ShiftLeft", 61)
    ∷ ("ShiftRight", 62)
    ∷ ("Space", 63)
    ∷ ("Tab", 64)
    ∷ ("Convert", 65)
    ∷ ("KanaMode", 66)
    ∷ ("NonConvert", 67)
    ∷ ("Delete", 68)
    ∷ ("End", 69)
    ∷ ("Help", 70)
    ∷ ("Home", 71)
    ∷ ("Insert", 72)
    ∷ ("PageDown", 73)
    ∷ ("PageUp", 74)
    ∷ ("ArrowDown", 75)
    ∷ ("ArrowLeft", 76)
    ∷ ("ArrowRight", 77)
    ∷ ("ArrowUp", 78)
    ∷ ("NumLock", 79)
    ∷ ("Numpad0", 80)
    ∷ ("Numpad1", 81)
    ∷ ("Numpad2", 82)
    ∷ ("Numpad3", 83)
    ∷ ("Numpad4", 84)
    ∷ ("Numpad5", 85)
    ∷ ("Numpad6", 86)
    ∷ ("Numpad7", 87)
    ∷ ("Numpad8", 88)
    ∷ ("Numpad9", 89)
    ∷ ("NumpadAdd", 90)
    ∷ ("NumpadBackspace", 91)
    ∷ ("NumpadClear", 92)
    ∷ ("NumpadClearEntry", 93)
    ∷ ("NumpadComma", 94)
    ∷ ("NumpadDecimal", 95)
    ∷ ("NumpadDivide", 96)
    ∷ ("NumpadEnter", 97)
    ∷ ("NumpadEqual", 98)
    ∷ ("NumpadMemoryAdd", 99)
    ∷ ("NumpadMemoryClear", 100)
    ∷ ("NumpadMemoryRecall", 101)
    ∷ ("NumpadMemoryStore", 102)
    ∷ ("NumpadMemorySubtract", 103)
    ∷ ("NumpadMultiply", 104)
    ∷ ("NumpadParenLeft", 105)
    ∷ ("NumpadParenRight", 106)
    ∷ ("NumpadSubtract", 107)
    ∷ ("NumpadSeparator", 108)
    ∷ ("NumpadUp", 109)
    ∷ ("NumpadDown", 110)
    ∷ ("NumpadRight", 111)
    ∷ ("NumpadLeft", 112)
    ∷ ("NumpadBegin", 113)
    ∷ ("NumpadHome", 114)
    ∷ ("NumpadEnd", 115)
    ∷ ("NumpadInsert", 116)
    ∷ ("NumpadDelete", 117)
    ∷ ("NumpadPageUp", 118)
    ∷ ("NumpadPageDown", 119)
    ∷ ("Escape", 120)
    ∷ ("F1", 121)
    ∷ ("F2", 122)
    ∷ ("F3", 123)
    ∷ ("F4", 124)
    ∷ ("F5", 125)
    ∷ ("F6", 126)
    ∷ ("F7", 127)
    ∷ ("F8", 128)
    ∷ ("F9", 129)
    ∷ ("F10", 130)
    ∷ ("F11", 131)
    ∷ ("F12", 132)
    ∷ ("F13", 133)
    ∷ ("F14", 134)
    ∷ ("F15", 135)
    ∷ ("F16", 136)
    ∷ ("F17", 137)
    ∷ ("F18", 138)
    ∷ ("F19", 139)
    ∷ ("F20", 140)
    ∷ ("F21", 141)
    ∷ ("F22", 142)
    ∷ ("F23", 143)
    ∷ ("F24", 144)
    ∷ ("F25", 145)
    ∷ ("Fn", 146)
    ∷ ("FnLock", 147)
    ∷ ("PrintScreen", 148)
    ∷ ("ScrollLock", 149)
    ∷ ("Pause", 150)
    ∷ ("BrowserBack", 151)
    ∷ ("BrowserFavorites", 152)
    ∷ ("BrowserForward", 153)
    ∷ ("BrowserHome", 154)
    ∷ ("BrowserRefresh", 155)
    ∷ ("BrowserSearch", 156)
    ∷ ("BrowserStop", 157)
    ∷ ("Eject", 158)
    ∷ ("LaunchApp1", 159)
    ∷ ("LaunchApp2", 160)
    ∷ ("LaunchMail", 161)
    ∷ ("MediaPlayPause", 162)
    ∷ ("MediaSelect", 163)
    ∷ ("MediaStop", 164)
    ∷ ("MediaTrackNext", 165)
    ∷ ("MediaTrackPrevious", 166)
    ∷ ("Power", 167)
    ∷ ("Sleep", 168)
    ∷ ("AudioVolumeDown", 169)
    ∷ ("AudioVolumeMute", 170)
    ∷ ("AudioVolumeUp", 171)
    ∷ ("WakeUp", 172)
    ∷ ("Copy", 173)
    ∷ ("Cut", 174)
    ∷ ("Paste", 175)
    ∷ []

-- What every object inherits: the members of `Object.prototype`.
abbrev pub inherited_members : List String
inherited_members =
    "constructor" ∷ "__defineGetter__" ∷ "__defineSetter__" ∷ "hasOwnProperty" ∷ "__lookupGetter__"
    ∷ "__lookupSetter__" ∷ "isPrototypeOf" ∷ "propertyIsEnumerable" ∷ "toString" ∷ "valueOf"
    ∷ "__proto__" ∷ "toLocaleString" ∷ []

abbrev is_member : String → List String → Bool
is_member name [] = false
is_member name (other ∷ others) = name == other || is_member name others

-- A code of the table has its number, and an unknown one is `Unidentified`. The name of an inherited
-- member reads as that member, a function or an object: `none`.
unfoldable pub terminal_key_from_code : String → Option ℕ
unfolding terminal_key lookup
terminal_key_from_code code = elim (lookup code terminal_key) [
  | some value ↦ some value
  | none ↦ if is_member code inherited_members then none else some 0
]
