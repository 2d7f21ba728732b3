-- ===== src/Lib.antt =====
-- The C++ style checker of the repository, cpplint.py, and what makes its core correct.
--
-- cpplint.py reads a C++ file, takes strings and comments out of its lines, walks over the lines with
-- several states (the nesting of blocks, the order of includes, the function being read) and calls an
-- error handler, which drops a report that a NOLINT comment, the verbosity or a filter suppresses and
-- prints and counts the others.
--
-- Which file models which part, all of cpplint.py:
--   Categories        the tables of categories, default filters and C++ headers
--   Nolint            ParseNolintSuppressions, ProcessGlobalSuppresions, ResetNolintSuppressions,
--                     IsErrorSuppressedByNolint
--   LintState         _CppLintState with its methods; Store has the lists of filters as objects that
--                     are shared by reference and changed in place
--   Emit              _ShouldPrintError and Error, on the module's state and the lines written; Calls has
--                     the calls of a check that also reads NOLINT comments
--   FileNames         FileInfo
--   HeaderGuard       GetHeaderGuardCPPVariable, CheckForHeaderGuard; CheckHeaderFileIncluded (Included)
--   Includes          _IncludeState with its methods; _DropCommonSuffixes, _ClassifyInclude and
--                     CheckIncludeLine (Line)
--   Functions         _FunctionState with its methods; CheckForFunctionLengths (Lengths)
--   Cleanse           CleansedLines; its child modules have CleanseRawStrings (RawStrings),
--                     RemoveMultiLineComments and CleanseComments (Comments), _CollapseStrings (Collapse)
--   Brackets          FindEndOfExpressionInLine and CloseExpression (Forward),
--                     FindStartOfExpressionInLine and ReverseCloseExpression (Backward)
--   FileChecks        CheckForCopyright, GetIndentLevel, CheckForBadCharacters, CheckForNewlineAtEOF
--   LineChecks        the checks from CheckForMultilineCommentsAndStrings to IsForwardClassDeclaration
--   Nesting           _BlockInfo and its subclasses (Blocks), NestingState with UpdatePreprocessor
--                     (Preprocessor), InTemplateArgumentList (Template), Update (Declarations, Braces,
--                     Update)
--   Style             CheckForNonStandardConstructs (Constructs, Explicit), CheckSpacingForFunctionCall
--                     (Calls), CheckComment and CheckAccess (Comments), CheckSpacing (Spacing),
--                     CheckOperatorSpacing (Operators), CheckParenthesisSpacing and CheckCommaSpacing
--                     (Parentheses), _IsType and CheckBracesSpacing (Types), CheckSectionSpacing,
--                     GetPreviousNonBlankLine and IsDecltype (Sections), GetLineWidth (Width),
--                     CheckBraces (Braces), CheckTrailingSemicolon (Semicolons),
--                     CheckEmptyBlockBody (EmptyBody), CheckCheck (Macros), CheckAltTokens (AltTokens),
--                     CheckStyle (Line)
--   Language          CheckMakePairUsesDeduction, CheckRedundantVirtual, CheckRedundantOverrideOrFinal
--                     (Virtual); IsBlockInNameSpace, ShouldCheckNamespaceIndentation,
--                     CheckItemIndentationInNamespace (Namespaces)
-- Base has shared names and lemmas, Re the regular expressions, Report the calls of the error handler,
-- and Tests runs at fixed inputs.
--
-- A function of the source becomes a function of the same name in this language's spelling. Text is a
-- list of code points. A method that changes its object takes the state and returns the new one; the
-- fields of a record are the attributes. A stack is a list with its top first. A check returns the list
-- of its calls of the error handler, in order, which `handle_errors` then runs. A line number is a
-- natural number; -1 as an answer is `none`, as is an exception or a failed assertion. A dictionary is
-- an association list, a dictionary of sets the list of its pairs.
--
-- Python's `re` is code outside the repository. What the program uses of it is written as data (`Re`),
-- and run by a backtracking matcher that takes the first alternative first and the longest repetition
-- first, or the shortest for a lazy one. A repetition has the length of the text left as its fuel, since
-- each round that reads nothing ends it. Characters stand for themselves: white space is that of ASCII,
-- and so are letters and digits.
--
-- Other code outside the repository is a parameter: the functions of `os` and `os.path` (`Os`), the
-- tables of `unicodedata` (`UnicodeData`), and `re.compile` of a pattern that the user gives.
--
-- A `while` loop runs on fuel, one more than a measure that each round makes smaller: the lines left for
-- comments over several lines, the length of the line for quotes, raw strings, namespaces, braces, the
-- names of operator functions and the argument of a check macro, the length of the path for the
-- directories above a file, the size of the file for template arguments.
--
-- Not modelled: configuration files, arguments and the driver, which are about files and printing; the
-- checks of the language from CheckLanguage to CheckForIncludeWhatYouUse and
-- CheckForNamespaceIndentation; and the C++ database under src/, which shares no code with cpplint.py.
-- `previous_stack_top` is kept as the block was when it was stored.
pub mod Base
pub mod Brackets
pub mod Categories
pub mod Cleanse
pub mod Emit
pub mod FileChecks
pub mod FileNames
pub mod Functions
pub mod HeaderGuard
pub mod Includes
pub mod Language
pub mod LineChecks
pub mod LintState
pub mod Nesting
pub mod Nolint
pub mod Re
pub mod Report
pub mod Style
pub mod Tests
